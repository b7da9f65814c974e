-- ===== src/Card/Tag.antt =====
-- A MIFARE Classic tag as `class Card` (src/card.cpp) sees it through the reader: what its blocks
-- hold, and the state of the copy in memory beside it.
pub mod Opening
pub mod Fetching
pub mod Fresh
pub mod Reading
pub mod Writing
pub mod Whole
pub mod Stored
use programme_bee_gadz.Common.{
  ℕ, zero, suc, ◌+◌, ◌*◌, ◌%◌, ◌≤◌, ◌<◌, ◌≡◌, refl, ap, ◌∙◌, sym, Bool, true, false, some, List, [],
  ◌∷◌, ◌++◌, arith, pos, length, get_elem?, get_elem?-some, set, lt_of_get_elem?, length-set,
  get_elem?-set_self, get_elem?-set_ne, ◌==◌, ==_iff, Bool-cases, inl, inr, if◌then◌else◌, ◌≢◌,
}
use programme_bee_gadz.Block.{Block, IsBlock}
use programme_bee_gadz.Sector.{Sector, size}
use programme_bee_gadz.Mifare.{Libnfc, Property}
use programme_bee_gadz.Card.Layout.{calculate_sector, calculate_block}
use programme_bee_gadz.Card.Layout.Uniform.{
  blocks_before, calculate_sector_lem, calculate_block_lem,
}
use programme_bee_gadz.Card.State.{Card, Held, uid_of}
use programme_bee_gadz.Card.Contents.{blocks_of}

-- A block that a write fills with the bytes that it sends: not the maker's block, and not a trailer.
abbrev pub IsWritable : ℕ → Type 0
IsWritable n = (0 < n) × (n < 64) × (n % 4 < 3)

-- What the program relies on of a reader with one tag of 64 blocks, all of which the key A `key`
-- opens: `content d n` is what a read of block `n` shows, and `opened d n` says that it can be read
-- and written.
pub record IsMifare {D : Type 0} (nfc : Libnfc D) (content : D → ℕ → List ℕ) (opened : D → ℕ → Bool)
    (key uid : List ℕ) : Type 0 where
  -- The framing can be set, and nothing changes on the tag.
  pub framing :
      (d : D)
      → (r : ℕ) × (d' : D) × (nfc.set_property_bool Property.easy_framing true d ≡ (pos r, d'))
        × ((n : ℕ) → content d' n ≡ content d n)
        × ((n : ℕ) → opened d' n ≡ opened d n)
  -- The command 60 with the key and the UID opens a block.
  pub opens :
      (d : D) (n : ℕ)
      → n < 64
      → (r : ℕ) × (rx : List ℕ) × (d' : D) × (nfc.transceive_bytes (0x60 ∷ n ∷ (key ++ uid)) d
          ≡ (pos r, rx, d'))
        × ((m : ℕ) → content d' m ≡ content d m)
        × (opened d' n ≡ true)
  -- The command 30 on an open block answers its 16 bytes.
  pub reads :
      (d : D) (n : ℕ)
      → opened d n ≡ true
      → (length (content d n) ≡ 16)
        × (d' : D) × (nfc.transceive_bytes (0x30 ∷ n ∷ []) d ≡ (pos 16, content d n, d'))
        × ((m : ℕ) → content d' m ≡ content d m)
  -- The command a0 with 16 bytes on an open block puts them there.
  pub writes :
      (d : D) (n : ℕ) (bytes : List ℕ)
      → opened d n ≡ true
      → IsWritable n
      → length bytes ≡ 16
      → (r : ℕ) × (rx : List ℕ) × (d' : D) × (nfc.transceive_bytes (0xa0 ∷ n ∷ bytes) d
          ≡ (pos r, rx, d'))
        × ((m : ℕ) → content d' m ≡ (if m == n then bytes else content d m))

-- A sector of four blocks, opened with key A.
pub record IsClassic (s : Sector) : Type 0 where
  pub four : length s.blocks ≡ 4
  pub whole : (i : ℕ) (b : Block) → get_elem? s.blocks i ≡ some b → IsBlock b
  pub key_length : length s.key ≡ 6
  pub key_a : s.key_b ≡ false

-- A card with one key and the sectors of a tag of 64 blocks.
pub record IsClassicCard (key uid : List ℕ) (c : Card) : Type 0 where
  pub keys : c.keys ≡ key
  pub one_key : length key ≡ 6
  pub uid_is : uid_of c ≡ uid
  pub four_bytes : length uid ≡ 4
  pub param : length c.param ≡ 16
  pub count : length c.sectors ≡ 16
  pub classic : (j : ℕ) (s : Sector) → get_elem? c.sectors j ≡ some s → IsClassic s

-- The card is one of this key and UID, its blocks in memory are `blocks`, and those on the tag that
-- the reader has are `tag`.
pub record Stands {D : Type 0} (content : D → ℕ → List ℕ) (key uid : List ℕ) (tag : ℕ → List ℕ)
    (blocks : List (List Block)) (h : Held D) : Type 0 where
  pub card : IsClassicCard key uid h.card
  pub memory : blocks_of h.card.sectors ≡ blocks
  pub on_tag : (n : ℕ) → content h.env.device n ≡ tag n

pub blocks_of-set_any :
    (sectors : List Sector) (k : ℕ) (s : Sector)
    → blocks_of (set sectors k s) ≡ set (blocks_of sectors) k s.blocks
blocks_of-set_any [] k s = refl
blocks_of-set_any (x ∷ sectors) zero s = refl
blocks_of-set_any (x ∷ sectors) (suc k) s =
    ap (λ rest. x.blocks ∷ rest) (blocks_of-set_any sectors k s)

pub get_elem?-blocks_of :
    (sectors : List Sector) (k : ℕ) {s : Sector}
    → get_elem? sectors k ≡ some s
    → get_elem? (blocks_of sectors) k ≡ some s.blocks
get_elem?-blocks_of [] k e = cc
get_elem?-blocks_of (x ∷ sectors) zero {s} e = let same : x ≡ s = cc in rw same refl
get_elem?-blocks_of (x ∷ sectors) (suc k) e = get_elem?-blocks_of sectors k e

length-blocks_of : (sectors : List Sector) → length (blocks_of sectors) ≡ length sectors
length-blocks_of [] = refl
length-blocks_of (s ∷ sectors) = ap suc (length-blocks_of sectors)

pub Stands-length :
    {D : Type 0} {content : D → ℕ → List ℕ} {key uid : List ℕ} {tag : ℕ → List ℕ}
    {blocks : List (List Block)} {h : Held D}
    → Stands content key uid tag blocks h
    → length blocks ≡ 16
Stands-length {h = h} v = ap length (sym v.memory) ∙ length-blocks_of h.card.sectors ∙ v.card.count

-- A sector of the card that is put in its place again, changed.
pub put_sector-IsClassic :
    (sectors : List Sector) (k : ℕ) (s : Sector)
    → ((j : ℕ) (s : Sector) → get_elem? sectors j ≡ some s → IsClassic s)
    → IsClassic s
    → (j : ℕ) (s' : Sector) → get_elem? (set sectors k s) j ≡ some s'
    → IsClassic s'
put_sector-IsClassic sectors k s all new j s' e = elim (Bool-cases (k == j)) [
  | inl equal ↦
      let same : k ≡ j = (==_iff k j).0 equal in
      let inside : j < length sectors =
        omega (arith, lt_of_get_elem? (set sectors k s) j e, length-set sectors k s) in
      let at : get_elem? (set sectors j s) j ≡ some s' =
        ap (λ i. get_elem? (set sectors i s) j) (sym same) ∙ e in
      let put : some s ≡ some s' = sym (get_elem?-set_self sectors j s inside) ∙ at in
      let is_new : s ≡ s' = cc in rw (← is_new) new
  | inr unequal ↦
      let other : k ≢ j = λ same. (let equal = (==_iff k j).1 same in cc) in
      all j s' (sym (get_elem?-set_ne sectors k j s other) ∙ e)
]

blocks_before-four :
    (k : ℕ) (sectors : List Sector)
    → ((j : ℕ) (s : Sector) → get_elem? sectors j ≡ some s → IsClassic s)
    → k ≤ length sectors
    → blocks_before k sectors ≡ 4 * k
blocks_before-four zero sectors all h = refl
blocks_before-four (suc k) [] all h = absurd (omega arith)
blocks_before-four (suc k) (s ∷ sectors) all h =
    omega
      (arith, (all 0 s refl).four, blocks_before-four k sectors (λ j. all (suc j)) (omega arith))

module _ {key uid : List ℕ} {c : Card} (card : IsClassicCard key uid c) (k : ℕ)
    (inside : k < 16) where
  pub the_sector-IsClassic : (s : Sector) × (get_elem? c.sectors k ≡ some s) × IsClassic s
  the_sector-IsClassic =
      let (s, e) = get_elem?-some c.sectors k (omega (arith, card.count)) in
      (s, e, card.classic k s e)

  -- Block `p` of sector `k` is block `4 * k + p` of the card.
  pub classic_place : (p : ℕ) → p < 4 → calculate_sector (4 * k + p) c.sectors ≡ some (k, p)
  classic_place p small =
      let (s, e, is) = the_sector-IsClassic in
      ap (λ n. calculate_sector (n + p) c.sectors)
        (sym (blocks_before-four k c.sectors card.classic (omega (arith, card.count))))
      ∙ calculate_sector_lem k p c.sectors e (omega (arith, is.four))

  -- The last block of sector `k`
  pub classic_last : calculate_block k c.sectors ≡ some (4 * k + 3)
  classic_last =
      let (s, e, is) = the_sector-IsClassic in
      let (first, e0) = get_elem?-some c.sectors 0 (omega (arith, card.count)) in
      let before = blocks_before-four (suc k) c.sectors card.classic (omega (arith, card.count)) in
      let (last, runs, sum) =
        calculate_block_lem k c.sectors e0 e (omega (arith, is.four)) (omega (arith, is.four)) in
      let is_last : last ≡ 4 * k + 3 = omega (arith, is.four, (card.classic 0 first e0).four) in
      runs ∙ ap some is_last

-- The sector whose blocks in memory are `xs`.
pub the_sector_of :
    {D : Type 0} {content : D → ℕ → List ℕ} {key uid : List ℕ} {tag : ℕ → List ℕ}
    {blocks : List (List Block)} {xs : List Block} (h : Held D) (k : ℕ)
    → Stands content key uid tag blocks h
    → k < 16
    → get_elem? blocks k ≡ some xs
    → (s : Sector) × (get_elem? h.card.sectors k ≡ some s) × IsClassic s × (s.blocks ≡ xs)
the_sector_of {xs = xs} h k v inside here =
    let (s, there, is) = the_sector-IsClassic v.card k inside in
    let memory : some s.blocks ≡ some xs =
      sym (get_elem?-blocks_of h.card.sectors k there) ∙ ap (λ l. get_elem? l k) v.memory ∙ here in
    (s, there, is, cc memory)
