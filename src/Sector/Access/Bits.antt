-- ===== src/Sector/Access/Bits.antt =====
-- The bits that `Sector::setPermissions` (src/sector.cpp) writes to bytes 6 to 8 of a trailer, one pair
-- of bits to a byte.
use programme_bee_gadz.Common.{
  ℕ, ◌+◌, ◌≤◌, ◌<◌, ◌≡◌, ◌≢◌, ◌⊎◌, inl, inr, sym, ap, ◌∙◌, Bool, false, not, List, [], ◌∷◌, arith,
  length, get_or, set, to_bits, of_bits, to_bits-of_bits, length-to_bits, length-set,
  get_or-set_self, get_or-set_ne,
}
use programme_bee_gadz.Sector.{access_pair, access_byte, write_access_bytes}

-- Bit `k` of byte `i` of a trailer.
abbrev pub trailer_bit : List ℕ → ℕ → ℕ → Bool
trailer_bit bytes i k = get_or (to_bits 8 (get_or bytes i 0)) k false

-- The card reads the three condition bits for group `g`, and finds the inverted copies in order.
abbrev pub Grants : List ℕ → ℕ → Bool → Bool → Bool → Type 0
Grants bytes g c1 c2 c3 =
    (trailer_bit bytes 7 (g + 4) ≡ c1)
    × (trailer_bit bytes 8 g ≡ c2)
    × (trailer_bit bytes 8 (g + 4) ≡ c3)
    × (trailer_bit bytes 6 g ≡ not c1)
    × (trailer_bit bytes 6 (g + 4) ≡ not c2)
    × (trailer_bit bytes 7 g ≡ not c3)

module _ (bits : List Bool) (g i byte : ℕ) (h : g < 4) where
  stored : List Bool
  stored = set (set (to_bits 8 byte) g (access_pair bits i).0) (g + 4) (access_pair bits i).1

  stored-length : length stored ≡ 8
  unfolding stored
  stored-length =
      length-set (set (to_bits 8 byte) g (access_pair bits i).0) (g + 4) (access_pair bits i).1
      ∙ length-set (to_bits 8 byte) g (access_pair bits i).0
      ∙ length-to_bits 8 byte

  reload : to_bits 8 (access_byte bits g i byte) ≡ stored
  unfolding stored access_byte
  reload = ap (λ w. to_bits w (of_bits stored)) (sym stored-length) ∙ to_bits-of_bits stored

  low_stored : get_or (to_bits 8 (access_byte bits g i byte)) g false ≡ (access_pair bits i).0
  unfolding stored
  low_stored =
      rw (reload, get_or-set_ne _ (g + 4) g _ false (omega arith))
        (get_or-set_self _ g _ false (omega (arith, length-to_bits 8 byte)))

  high_stored :
      get_or (to_bits 8 (access_byte bits g i byte)) (g + 4) false ≡ (access_pair bits i).1
  unfolding stored
  high_stored = rw reload (
      get_or-set_self _ (g + 4) _ false (
        omega (arith, length-set (to_bits 8 byte) g (access_pair bits i).0, length-to_bits 8 byte)))

  other_stored :
      (k : ℕ)
      → k ≢ g
      → k ≢ g + 4
      → get_or (to_bits 8 (access_byte bits g i byte)) k false ≡ get_or (to_bits 8 byte) k false
  unfolding stored
  other_stored k low high =
      rw (reload, get_or-set_ne _ (g + 4) k _ false (λ e. high (sym e)))
        (get_or-set_ne _ g k _ false (λ e. low (sym e)))

module _ (bits : List Bool) (g : ℕ) (bytes : List ℕ) (full : length bytes ≡ 16) where
  byte_six : get_or (write_access_bytes bits g bytes) 6 0 ≡ access_byte bits g 6 (get_or bytes 6 0)
  unfolding write_access_bytes
  byte_six = grind (arith, get_or-set_ne, get_or-set_self, length-set)

  byte_seven :
      get_or (write_access_bytes bits g bytes) 7 0 ≡ access_byte bits g 7 (get_or bytes 7 0)
  unfolding write_access_bytes
  byte_seven = grind (arith, get_or-set_ne, get_or-set_self, length-set)

  byte_eight :
      get_or (write_access_bytes bits g bytes) 8 0 ≡ access_byte bits g 8 (get_or bytes 8 0)
  unfolding write_access_bytes
  byte_eight = grind (arith, get_or-set_ne, get_or-set_self, length-set)

  -- The bytes of the two keys are left alone.
  pub byte_kept :
      (i : ℕ) → (i < 6) ⊎ (9 ≤ i) → get_or (write_access_bytes bits g bytes) i 0 ≡ get_or bytes i 0
  unfolding write_access_bytes
  byte_kept i away = grind (arith, get_or-set_ne)

module _ (c1 c2 c3 : Bool) (g : ℕ) (bytes : List ℕ) (full : length bytes ≡ 16) (h : g < 4) where
  pub write_access_bytes-Grants : Grants (write_access_bytes (c3 ∷ c2 ∷ c1 ∷ []) g bytes) g c1 c2 c3
  unfolding access_pair
  write_access_bytes-Grants =
      let bits : List Bool = c3 ∷ c2 ∷ c1 ∷ [] in
      (
        rw (byte_seven bits g bytes full) (high_stored bits g 7 _ h),
        rw (byte_eight bits g bytes full) (low_stored bits g 8 _ h),
        rw (byte_eight bits g bytes full) (high_stored bits g 8 _ h),
        rw (byte_six bits g bytes full) (low_stored bits g 6 _ h),
        rw (byte_six bits g bytes full) (high_stored bits g 6 _ h),
        rw (byte_seven bits g bytes full) (low_stored bits g 7 _ h),
      )

pub middle_byte : (i : ℕ) → 6 ≤ i → i < 9 → (i ≡ 6) ⊎ ((i ≡ 7) ⊎ (i ≡ 8))
middle_byte i lo hi = grind arith

module _ (bits : List Bool) (g : ℕ) (bytes : List ℕ) (full : length bytes ≡ 16) (h : g < 4) where
  -- No bit changes but the two of the group.
  pub bit_kept :
      (i k : ℕ)
      → 6 ≤ i
      → i < 9
      → k ≢ g
      → k ≢ g + 4
      → trailer_bit (write_access_bytes bits g bytes) i k ≡ trailer_bit bytes i k
  bit_kept i k lo hi low high = elim (middle_byte i lo hi) [
    | inl e ↦ rw (e, byte_six bits g bytes full) (other_stored bits g 6 _ h k low high)
    | inr (inl e) ↦ rw (e, byte_seven bits g bytes full) (other_stored bits g 7 _ h k low high)
    | inr (inr e) ↦ rw (e, byte_eight bits g bytes full) (other_stored bits g 8 _ h k low high)
  ]
