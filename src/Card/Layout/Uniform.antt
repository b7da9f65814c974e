-- ===== src/Card/Layout/Uniform.antt =====
-- The block numbers of `calculateBlock` and `calculateSector` (src/card.cpp) against the sums of the
-- sizes of the sectors.
use programme_bee_gadz.Common.{
  ℕ, zero, suc, ◌+◌, ◌-◌, ◌%◌, ◌^◌, ◌≤◌, ◌<◌, ◌≡◌, refl, sym, ap, ◌∙◌, some, List, [], ◌∷◌, arith,
  le→leb, leb_lt, get_elem?, lt_of_get_elem?, get_elem?-some, length,
}
use native.Mathlib.Nat.{zero-add, add-zero, mod-eq_of_lt}
use programme_bee_gadz.Sector.{Sector, size}
use programme_bee_gadz.Card.Layout.{sum_loop, calculate_block, find_sector, calculate_sector}

-- The blocks of the first `n` sectors.
abbrev pub blocks_before : ℕ → List Sector → ℕ
blocks_before zero sectors = 0
blocks_before (suc n) [] = 0
blocks_before (suc n) (s ∷ sectors) = size s + blocks_before n sectors

find_sector_lem :
    (i k place : ℕ) (sectors : List Sector) {s : Sector}
    → get_elem? sectors k ≡ some s
    → place < size s
    → find_sector i (blocks_before k sectors + place) sectors ≡ some (i + k, place)
unfolding find_sector
find_sector_lem i k place [] e h = cc
find_sector_lem i zero place (x ∷ rest) {s} e h =
    let same : x ≡ s = cc in
    let bound : place < size x = rw same h in
    rw (zero-add place, leb_lt (size x) place bound, add-zero i)
find_sector_lem i (suc k) place (x ∷ rest) e h =
    let n = size x + blocks_before k rest + place in
    let left : n - size x ≡ blocks_before k rest + place = omega arith in
    let next : suc i + k ≡ i + suc k = omega arith in
    rw (le→leb (size x) n (omega arith), left, ← next) (find_sector_lem (suc i) k place rest e h)

-- `calculateSector` finds the sector of a block and its place in the sector, whatever the sizes of
-- the sectors: it inverts the sum of the sizes of the sectors before.
pub calculate_sector_lem :
    (k place : ℕ) (sectors : List Sector) {s : Sector}
    → get_elem? sectors k ≡ some s
    → place < size s
    → calculate_sector (blocks_before k sectors + place) sectors ≡ some (k, place)
unfolding calculate_sector
calculate_sector_lem k place sectors e h =
    find_sector_lem 0 k place sectors e h ∙ ap (λ j. some (j, place)) (zero-add k)

blocks_before-suc :
    (k : ℕ) (sectors : List Sector) {s : Sector}
    → get_elem? sectors k ≡ some s
    → blocks_before (suc k) sectors ≡ blocks_before k sectors + size s
blocks_before-suc k [] e = cc
blocks_before-suc zero (x ∷ rest) {s} e = let same : x ≡ s = cc in rw same (omega arith)
blocks_before-suc (suc k) (x ∷ rest) e = omega (arith, blocks_before-suc k rest e)

blocks_before-le :
    (k n : ℕ) (sectors : List Sector) → k ≤ n → blocks_before k sectors ≤ blocks_before n sectors
blocks_before-le zero n sectors h = omega arith
blocks_before-le (suc k) zero sectors h = absurd (omega arith)
blocks_before-le (suc k) (suc n) [] h = omega arith
blocks_before-le (suc k) (suc n) (x ∷ rest) h =
    omega (arith, blocks_before-le k n rest (omega arith))

-- The loop adds the sizes of the sectors after `i`, up to `j`.
sum_loop_lem :
    (rounds i j block : ℕ) (sectors : List Sector)
    → i + rounds ≡ j
    → j < length sectors
    → block + blocks_before (suc j) sectors < blocks_before (suc i) sectors + 2 ^ 64
    → (r : ℕ) × (sum_loop rounds i block sectors ≡ some r)
      × (r + blocks_before (suc i) sectors ≡ block + blocks_before (suc j) sectors)
unfolding sum_loop
sum_loop_lem zero i j block sectors last h fits =
    let same : j ≡ i = omega arith in
    (block, refl, ap (λ n. block + blocks_before (suc n) sectors) (sym same))
sum_loop_lem (suc rounds) i j block sectors last h fits =
    let (s, e) = get_elem?-some sectors (suc i) (omega arith) in
    let step = blocks_before-suc (suc i) sectors e in
    let later = blocks_before-le (suc (suc i)) (suc j) sectors (omega arith) in
    let small : block + size s < 2 ^ 64 = omega arith in
    let (r, runs, sum) =
      sum_loop_lem rounds (suc i) j (block + size s) sectors (omega arith) h (omega arith) in
    (r, rw (e, mod-eq_of_lt small) runs, omega arith)

-- `calculateBlock`: the number that it returns is the sector's last block exactly if the sector is
-- as long as the first; in general it is off by the difference of the two lengths.
pub calculate_block_lem :
    (k : ℕ) (sectors : List Sector) {s first : Sector}
    → get_elem? sectors 0 ≡ some first
    → get_elem? sectors k ≡ some s
    → 0 < size s
    → blocks_before (suc k) sectors + size s < 2 ^ 64
    → (last : ℕ) × (calculate_block k sectors ≡ some last)
      × (last + size first + 1 ≡ blocks_before (suc k) sectors + size s)
unfolding calculate_block
calculate_block_lem k sectors {s} {first} e0 e pos fits =
    let step = blocks_before-suc k sectors e in
    let start = blocks_before-suc 0 sectors e0 in
    let (r, runs, sum) =
      sum_loop_lem k 0 k 0 sectors (zero-add k) (lt_of_get_elem? sectors k e) (omega arith) in
    let wraps : (r + size s + 2 ^ 64 - 1) % 2 ^ 64 ≡ r + size s - 1 = omega arith in
    (r + size s - 1, rw (runs, e, wraps), omega arith)
