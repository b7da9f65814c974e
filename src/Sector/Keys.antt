-- ===== src/Sector/Keys.antt =====
-- The keys of a sector (src/sector.cpp): `setKeyA`, `setKeyB`, the copies of a sector, `verifyBCC`.
use programme_bee_gadz.Common.{
  ℕ, ◌+◌, ◌-◌, ◌<◌, ◌≡◌, ◌⊎◌, inl, inr, ◌↔◌, Bool, true, false, not, refl, ap, ◌∙◌, sym, some, List,
  arith, get_or, get_elem?-some, bit_xor, bit_xor-zero, Bool-cases, ==_iff, ◌==◌, get_or_past, leb,
  ltb, lt→ltb, le→leb, leb_lt, ltb_le, ◌&&◌, get_elem?, set, length, for_below, if◌then◌else◌,
}
use native.Mathlib.Decide.{dec_lt}
use programme_bee_gadz.Block.{Block, IsBlock}
use programme_bee_gadz.Sector.{
  Sector, IsSector, size, last_index, trailer_bytes, bytes_of, verify_bcc, xor_of_five, set_key_a,
  set_key_b, copy_key_a, copy_key_b, set_authentification_key, copy_sector, assign_sector,
}
use programme_bee_gadz.Sector.Shape.{trailer-some, trailer-set, set-IsSector}
use programme_bee_gadz.Sector.Copies.{
  length-copy, copy_low, copy_high, copy_back, length-copy_back, back_high, back_low, copied_key,
}

-- The sector with the trailer replaced, and with the key replaced too if it is in use.
stored : Block → List ℕ → Bool → Sector → Sector
stored b key in_use s =
    let s' = record s { blocks = set s.blocks (last_index s) b } in
    if in_use then set_authentification_key key s' else s'

module _ (s : Sector) (v : IsSector s) (b : Block) (key : List ℕ) where
  stored-trailer : (in_use : Bool) → trailer_bytes (stored b key in_use s) ≡ b.data_bytes
  unfolding stored
  stored-trailer true = ap bytes_of (trailer-set s b v)
  stored-trailer false = ap bytes_of (trailer-set s b v)

  stored-key :
      (in_use : Bool)
      → length key ≡ 6
      → (stored b key in_use s).key ≡ (if in_use then key else s.key)
  unfolding stored
  stored-key true six = copied_key key s.key v.key_length six
  stored-key false six = refl

  stored-IsSector : (in_use : Bool) → IsBlock b → IsSector (stored b key in_use s)
  unfolding stored
  stored-IsSector true h =
      let w = set-IsSector s (last_index s) b v h in
      record {
        nonempty = w.nonempty;
        fits = w.fits;
        whole = w.whole;
        key_length = length-copy key s.key 6 ∙ v.key_length;
      }
  stored-IsSector false h = set-IsSector s (last_index s) b v h

  stored-key_b : (in_use : Bool) → (stored b key in_use s).key_b ≡ s.key_b
  unfolding stored
  stored-key_b true = refl
  stored-key_b false = refl

choose_not {ℓ} : {A : Type ℓ} (k : Bool) (x y : A) → (if k then x else y) ≡ (if not k then y else x)
choose_not true x y = refl
choose_not false x y = refl

-- Byte `i` of a trailer in which a key was stored from byte `at` on.
abbrev pub key_or_kept : ℕ → List ℕ → List ℕ → ℕ → ℕ
key_or_kept at key bytes i =
    if leb at i && ltb i (at + 6) then get_or key (i - at) 0 else get_or bytes i 0

copy_a_byte :
    (key bytes : List ℕ)
    → length bytes ≡ 16
    → (i : ℕ)
    → get_or (for_below 6 (λ i t. set t i (get_or key i 0)) bytes) i 0 ≡ key_or_kept 0 key bytes i
copy_a_byte key bytes full i =
    let from : i - 0 ≡ i = omega arith in
    elim (dec_lt i 6) [
      | yes h ↦
          rw (le→leb 0 i (omega arith), lt→ltb i 6 h, from) (copy_low key bytes 6 i (omega arith) h)
      | no h ↦
          rw (le→leb 0 i (omega arith), ltb_le i 6 (omega arith))
            (copy_high key bytes 6 i (omega arith))
    ]

copy_b_byte :
    (key bytes : List ℕ)
    → length bytes ≡ 16
    → (i : ℕ) → get_or (copy_back key bytes (length bytes) 6) i 0 ≡ key_or_kept 10 key bytes i
copy_b_byte key bytes full i =
    let n = length bytes in
    elim (dec_lt i 10) [
      | yes low ↦ rw (leb_lt 10 i low) (back_low key bytes n 6 i (omega arith) (omega arith))
      | no high ↦ elim (dec_lt i 16) [
        | yes h ↦
            let from : i + 6 - n ≡ i - 10 = omega arith in
            rw (le→leb 10 i (omega arith), lt→ltb i 16 h)
              (back_high key bytes n 6 i refl (omega arith) (omega arith) (omega arith)
                  (omega arith)
                ∙ ap (λ j. get_or key j 0) from)
        | no past ↦
            rw (le→leb 10 i (omega arith), ltb_le i 16 (omega arith))
              (get_or_past (copy_back key bytes n 6) i 0
                  (omega (arith, length-copy_back key bytes n 6))
                ∙ sym (get_or_past bytes i 0 (omega arith)))
      ]
    ]

-- A well-formed sector and a key of six bytes: `setKeyA` writes the key to bytes 0 to 5 of the trailer
-- and leaves its other bytes; the key opens the sector from then on if key A is in use, and the
-- sector stays well formed.
pub set_key_a_lem :
    (key : List ℕ) (s : Sector)
    → IsSector s
    → length key ≡ 6
    → (s' : Sector) × (set_key_a key s ≡ some s')
      × ((i : ℕ) → get_or (trailer_bytes s') i 0 ≡ key_or_kept 0 key (trailer_bytes s) i)
      × (s'.key ≡ (if s.key_b then s.key else key))
      × IsSector s'
unfolding set_key_a
set_key_a_lem key s v six =
    let (tmp, at) = trailer-some s v in
    let b = copy_key_a key tmp in
    let in_use = not s.key_b in
    let full = v.whole (last_index s) tmp at in
    (
      stored b key in_use s,
      rw at (unfold stored in ap some (choose_not s.key_b _ _)),
      λ i.
          rw (stored-trailer s v b key in_use, ap bytes_of at)
            (copy_a_byte key tmp.data_bytes full i),
      stored-key s v b key in_use six ∙ sym (choose_not s.key_b s.key key),
      stored-IsSector s v b key in_use (length-copy key tmp.data_bytes 6 ∙ full),
    )

-- A well-formed sector and a key of six bytes: `setKeyB` writes the key to bytes 10 to 15 of the
-- trailer and leaves its other bytes; the key opens the sector from then on if key B is in use, and
-- the sector stays well formed.
pub set_key_b_lem :
    (key : List ℕ) (s : Sector)
    → IsSector s
    → length key ≡ 6
    → (s' : Sector) × (set_key_b key s ≡ some s')
      × ((i : ℕ) → get_or (trailer_bytes s') i 0 ≡ key_or_kept 10 key (trailer_bytes s) i)
      × (s'.key ≡ (if s.key_b then key else s.key))
      × IsSector s'
unfolding set_key_b
set_key_b_lem key s v six =
    let (tmp, at) = trailer-some s v in
    let b = copy_key_b key tmp in
    let full = v.whole (last_index s) tmp at in
    (
      stored b key s.key_b s,
      rw at (unfold stored in refl),
      λ i.
          rw (stored-trailer s v b key s.key_b, ap bytes_of at)
            (unfold copy_back in copy_b_byte key tmp.data_bytes full i),
      stored-key s v b key s.key_b six,
      stored-IsSector s v b key s.key_b (
          unfold copy_back in length-copy_back key tmp.data_bytes (length tmp.data_bytes) 6 ∙ full),
    )

-- Sectors whose keys have six bytes: the loop over `m_key` of the copy constructor makes the key that of
-- `other`, whatever the memory of the new key held, so that the copy is whole; the assignment gives the
-- target what the copy has except for the flag for key B, where the target keeps its own.
pub assign_sector-copy_sector :
    (raw : List ℕ) (this other : Sector)
    → length raw ≡ 6
    → length this.key ≡ 6
    → length other.key ≡ 6
    → (copy_sector raw other ≡ other)
      × (assign_sector this other ≡ record (copy_sector raw other) { key_b = this.key_b })
unfolding copy_sector assign_sector
assign_sector-copy_sector raw this other fresh old six =
    let copied = copied_key other.key raw fresh six in
    let assigned = copied_key other.key this.key old six in
    (
      ap (λ key. record other { key = key }) copied,
      ap (λ key. record other { key = key; key_b = this.key_b }) (assigned ∙ sym copied),
    )

-- The check byte of a UID of four bytes.
abbrev pub bcc : List ℕ → ℕ
bcc bytes =
    bit_xor (bit_xor (bit_xor (get_or bytes 0 0) (get_or bytes 1 0)) (get_or bytes 2 0))
      (get_or bytes 3 0)

-- A sector with at least one block: `verifyBCC` returns true exactly if the sector is not marked as
-- the one with the manufacturer's block, or byte 4 of its first block is the check byte of the four
-- bytes before.
pub verify_bcc_lem :
    (s : Sector)
    → 0 < size s
    → (r : Bool) × (verify_bcc s ≡ some r)
      × ((r ≡ true) ↔ (
          (s.is_trailer ≡ false)
          ⊎ (bcc (bytes_of (get_elem? s.blocks 0)) ≡ get_or (bytes_of (get_elem? s.blocks 0)) 4 0)))
unfolding verify_bcc
verify_bcc_lem s h = elim (Bool-cases s.is_trailer) [
  | inl marked ↦
      let (b, at) = get_elem?-some s.blocks 0 h in
      let first = bcc b.data_bytes in
      let fifth = get_or b.data_bytes 4 0 in
      rw (at) (
        xor_of_five b.data_bytes == 0,
        rw marked,
        (
          (λ e. inr ((bit_xor-zero first fifth).0 ((==_iff (xor_of_five b.data_bytes) 0).0 e))),
          from_bcc marked b.data_bytes,
        ),
      )
  | inr plain ↦ (true, rw plain, ((λ e. inl plain), (λ e. refl)))
]
  where
    from_bcc :
        s.is_trailer ≡ true
        → (bytes : List ℕ) → (s.is_trailer ≡ false) ⊎ (bcc bytes ≡ get_or bytes 4 0)
        → (xor_of_five bytes == 0) ≡ true
    from_bcc marked bytes (inl plain) = cc
    from_bcc marked bytes (inr e) =
        (==_iff (xor_of_five bytes) 0).1 ((bit_xor-zero (bcc bytes) (get_or bytes 4 0)).1 e)
