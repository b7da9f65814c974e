-- ===== src/Sector/Access.antt =====
-- The access conditions that `Sector::setPermissions` (src/sector.cpp) writes, read back the way a
-- MIFARE Classic card reads its trailer: three bits of each group, each stored twice, once inverted.
pub mod Bits
use programme_bee_gadz.Common.{
  ℕ, ◌+◌, ◌≤◌, ◌<◌, ◌≡◌, ◌≢◌, ◌⊎◌, inl, inr, sym, ap, ◌∙◌, Bool, true, false, not, ◌&&◌, ◌||◌, some,
  List, [], ◌∷◌, arith, ltb, leb, ◌==◌, if◌then◌else◌, length, get_or, set, lt→ltb, le→leb, leb_lt,
  Bool-cases, or_none, to_bits, of_bits, to_bits-of_bits, length-to_bits, length-set,
  get_or-set_self, get_or-set_ne,
}
use programme_bee_gadz.Block.{Block}
use programme_bee_gadz.Sector.{
  Sector, IsSector, trailer, bytes_of, trailer_bytes, size, last_index, access_group, access_pair,
  access_byte, write_access_bytes, write_access, set_permissions,
}
use programme_bee_gadz.Sector.Shape.{trailer-set, trailer-some}
use programme_bee_gadz.Sector.Access.Bits.{
  trailer_bit, write_access_bytes-Grants, byte_kept, middle_byte, bit_kept,
}

-- The sector with its trailer's access bits written.
with_access : List Bool → ℕ → Block → Sector → Sector
with_access bits g tmp s = record s {
  blocks =
      set s.blocks (last_index s)
        (record tmp { data_bytes = write_access_bytes bits g tmp.data_bytes });
}

module _ (s : Sector) (tmp : Block) (v : IsSector s) (at : trailer s ≡ some tmp) where
  with_access-trailer :
      (bits : List Bool) (g : ℕ)
      → trailer_bytes (with_access bits g tmp s) ≡ write_access_bytes bits g tmp.data_bytes
  unfolding with_access
  with_access-trailer bits g = ap bytes_of (trailer-set s _ v)

  write_access_runs :
      (bits : List Bool) (g : ℕ) → g < 4 → write_access bits g s ≡ some (with_access bits g tmp s)
  unfolding with_access write_access
  write_access_runs bits g h = rw (at, lt→ltb (g + 4) 8 (omega arith))

-- Where a MIFARE Classic trailer keeps the access bits: bytes 6 to 8, of which group `g` has bit `g`
-- of the low and of the high half.
abbrev pub is_access_bit : ℕ → ℕ → ℕ → Bool
is_access_bit g i k = leb 6 i && (ltb i 9 && (k == g || k == g + 4))

-- What the card's data sheet has there: the second and first bit inverted, then the
-- first and the third inverted, then the third and the second, the high half first.
abbrev pub sheet_bit : Bool → Bool → Bool → ℕ → Bool → Bool
sheet_bit c1 c2 c3 i high =
    if i == 6
    then (if high then not c2 else not c1)
    else if i == 7
    then (if high then c1 else not c3)
    else (if high then c3 else c2)

access_bit_place :
    (g i k : ℕ) → is_access_bit g i k ≡ true → (6 ≤ i) × (i < 9) × ((k ≡ g) ⊎ (k ≡ g + 4))
access_bit_place g i k e = ground arith

other_place :
    (g i k : ℕ)
    → is_access_bit g i k ≡ false
    → ((i < 6) ⊎ (9 ≤ i)) ⊎ ((6 ≤ i) × (i < 9) × (k ≢ g) × (k ≢ g + 4))
other_place g i k e = ground arith

module _ (c1 c2 c3 : Bool) (g : ℕ) (bytes : List ℕ) (full : length bytes ≡ 16) (h : g < 4) where
  written : List ℕ
  written = write_access_bytes (c3 ∷ c2 ∷ c1 ∷ []) g bytes

  low_bit :
      (i k : ℕ)
      → (i ≡ 6) ⊎ ((i ≡ 7) ⊎ (i ≡ 8))
      → k ≡ g
      → trailer_bit written i k ≡ sheet_bit c1 c2 c3 i (leb 4 k)
  unfolding written
  low_bit i k place e =
      let grants = write_access_bytes-Grants c1 c2 c3 g bytes full h in
      elim place [
        | inl six ↦ rw (six, e, leb_lt 4 g h) grants.3
        | inr (inl seven) ↦ rw (seven, e, leb_lt 4 g h) grants.5
        | inr (inr eight) ↦ rw (eight, e, leb_lt 4 g h) grants.1
      ]

  high_bit :
      (i k : ℕ)
      → (i ≡ 6) ⊎ ((i ≡ 7) ⊎ (i ≡ 8))
      → k ≡ g + 4
      → trailer_bit written i k ≡ sheet_bit c1 c2 c3 i (leb 4 k)
  unfolding written
  high_bit i k place e =
      let grants = write_access_bytes-Grants c1 c2 c3 g bytes full h in
      let half = le→leb 4 (g + 4) (omega arith) in
      elim place [
        | inl six ↦ rw (six, e, half) grants.4
        | inr (inl seven) ↦ rw (seven, e, half) grants.0
        | inr (inr eight) ↦ rw (eight, e, half) grants.2
      ]

  in_group :
      (i k : ℕ)
      → is_access_bit g i k ≡ true
      → trailer_bit written i k ≡ sheet_bit c1 c2 c3 i (leb 4 k)
  in_group i k e =
      let (lo, hi, half) = access_bit_place g i k e in
      let place = middle_byte i lo hi in
      elim half [ inl low ↦ low_bit i k place low | inr high ↦ high_bit i k place high ]

  out_of_group :
      (i k : ℕ) → is_access_bit g i k ≡ false → trailer_bit written i k ≡ trailer_bit bytes i k
  unfolding written
  out_of_group i k e =
      let bits : List Bool = c3 ∷ c2 ∷ c1 ∷ [] in
      elim (other_place g i k e) [
        | inl away ↦ rw (byte_kept bits g bytes full i away)
        | inr (lo, hi, low, high) ↦ bit_kept bits g bytes full h i k lo hi low high
      ]

  every_bit :
      (i k : ℕ)
      → trailer_bit written i k
        ≡ (if is_access_bit g i k then sheet_bit c1 c2 c3 i (leb 4 k) else trailer_bit bytes i k)
  every_bit i k = elim (Bool-cases (is_access_bit g i k)) [
    | inl e ↦ rw e (in_group i k e)
    | inr e ↦ rw e (out_of_group i k e)
  ]

-- A well-formed sector, and a block whose group is one of the four: `setPermissions` with three bits
-- returns true, and of every bit of the trailer those of the group are as the data sheet has them
-- for the three condition bits, and every other one is as it was.
pub set_permissions_bits :
    (block : ℕ) (c1 c2 c3 : Bool) (s : Sector)
    → IsSector s
    → access_group (size s) block < 4
    → (s' : Sector) × (set_permissions block c1 c2 c3 s ≡ some (true, s'))
      × ((i k : ℕ)
          → trailer_bit (trailer_bytes s') i k ≡ (
              if is_access_bit (access_group (size s) block) i k
              then sheet_bit c1 c2 c3 i (leb 4 k)
              else trailer_bit (trailer_bytes s) i k))
unfolding set_permissions written
set_permissions_bits block c1 c2 c3 s v h =
    let (tmp, at) = trailer-some s v in
    let g = access_group (size s) block in
    let bits : List Bool = c3 ∷ c2 ∷ c1 ∷ [] in
    (
      with_access bits g tmp s,
      ap (λ o. or_none o (λ s'. some (true, s'))) (write_access_runs s tmp v at bits g h),
      λ i k.
          rw (with_access-trailer s tmp v at bits g, ap bytes_of at)
            (every_bit c1 c2 c3 g tmp.data_bytes (v.whole (last_index s) tmp at) h i k),
    )
