-- ===== src/Card/Layout.antt =====
-- `Card::calculateBlock` and `Card::calculateSector` (src/card.cpp): where a block stands among the
-- sectors. `none` is a read past the end of `m_data`.
pub mod Uniform
use programme_bee_gadz.Common.{
  ℕ, zero, suc, ◌+◌, ◌-◌, ◌%◌, ◌^◌, ◌<◌, ◌≡◌, Option, none, some, List, [], ◌∷◌, leb, get_elem?,
  or_none, if◌then◌else◌,
}
use programme_bee_gadz.Sector.{Sector, size}

-- `while (i++ != sector) block += m_data[i].size();` with the rounds left
unfoldable pub sum_loop : ℕ → ℕ → ℕ → List Sector → Option ℕ
sum_loop zero i block sectors = some block
sum_loop (suc rounds) i block sectors =
    or_none (get_elem? sectors (suc i))
      λ s. sum_loop rounds (suc i) ((block + size s) % 2 ^ 64) sectors

-- `Card::calculateBlock`
unfoldable pub calculate_block : ℕ → List Sector → Option ℕ
unfolding sum_loop
calculate_block sector sectors =
    or_none (sum_loop sector 0 0 sectors)
      λ block. or_none (get_elem? sectors sector) λ s. some ((block + size s + 2 ^ 64 - 1) % 2 ^ 64)

-- `while (b - (int)m_data[sector].size() >= 0) b -= m_data[sector++].size();` from sector `i` on,
-- with `b` not negative
unfoldable pub find_sector : ℕ → ℕ → List Sector → Option (ℕ × ℕ)
find_sector i b [] = none
find_sector i b (s ∷ rest) =
    let later = find_sector (suc i) (b - size s) rest in
    if leb (size s) b then later else some (i, b)

-- `Card::calculateSector`, with the position in the sector that it writes to `*nb`. The block
-- numbers that the program computes are far below 2 ^ 31, where `(int)block` is the number itself.
unfoldable pub calculate_sector : ℕ → List Sector → Option (ℕ × ℕ)
unfolding find_sector
calculate_sector block sectors = find_sector 0 block sectors
