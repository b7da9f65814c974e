-- ===== src/Sector/Permissions.antt =====
-- `Sector::setPermissions(size_t, Flag)` (src/sector.cpp): the two tables translate a set of rights
-- into the three bits of an access condition.
use programme_bee_gadz.Common.{
  ℕ, ◌≤◌, ◌<◌, ◌≡◌, ◌≢◌, Bool, true, false, some, List, [], ◌∷◌, arith, get_or, of_bits, to_bits,
  to_bits-of_bits, ◌==◌, refl, ◌&&◌, ◌||◌, not, leb, ◌⊎◌, inl, inr, ==_ne, ==_iff, leb_lt, le→leb,
  suc, if◌then◌else◌, ap, ◌∙◌, length,
}
use programme_bee_gadz.Sector.{
  Sector, size, last_index, set_permissions, set_permissions_flag, indices_from, set_found,
  has_flag,
}
use programme_bee_gadz.Sector.Flags.{
  access_trailer, access_block, a_write_a, b_write_a, b_increment,
}

-- The number with the three condition bits, first to third, in binary, which indexes the tables.
abbrev pub condition : Bool → Bool → Bool → ℕ
condition c1 c2 c3 = of_bits (c3 ∷ c2 ∷ c1 ∷ [])

-- The rights that a table lists for a condition.
abbrev pub rights : List ℕ → Bool → Bool → Bool → ℕ
unfolding of_bits
rights table c1 c2 c3 = get_or table (condition c1 c2 c3) 0

found_in_block :
    (c1 c2 c3 : Bool)
    → indices_from 0 (rights access_block c1 c2 c3) access_block ≡ condition c1 c2 c3 ∷ []
unfolding of_bits
found_in_block true true true = refl
found_in_block true true false = refl
found_in_block true false true = refl
found_in_block true false false = refl
found_in_block false true true = refl
found_in_block false true false = refl
found_in_block false false true = refl
found_in_block false false false = refl

condition_bits : (c1 c2 c3 : Bool) → to_bits 3 (condition c1 c2 c3) ≡ c3 ∷ c2 ∷ c1 ∷ []
condition_bits c1 c2 c3 = to_bits-of_bits (c3 ∷ c2 ∷ c1 ∷ [])

module _ (block p : ℕ) (s : Sector) (h : block < size s) where
  data_search :
      block ≢ last_index s
      → has_flag p a_write_a ≡ false
      → has_flag p b_write_a ≡ false
      → set_permissions_flag block p s ≡ set_found (indices_from 0 p access_block) block s
  unfolding set_permissions_flag
  data_search ne no_a no_b = rw (==_ne block (last_index s) ne, no_a, no_b, leb_lt (size s) block h)

  trailer_search :
      block ≡ last_index s
      → has_flag p b_increment ≡ false
      → set_permissions_flag block p s ≡ set_found (indices_from 0 p access_trailer) block s
  unfolding set_permissions_flag
  trailer_search e no_b = rw ((==_iff block (last_index s)).1 e, no_b, leb_lt (size s) block h)

no_trailer_flags :
    (c1 c2 c3 : Bool)
    → (has_flag (rights access_block c1 c2 c3) a_write_a ≡ false)
      × (has_flag (rights access_block c1 c2 c3) b_write_a ≡ false)
unfolding of_bits
no_trailer_flags true true true = (refl, refl)
no_trailer_flags true true false = (refl, refl)
no_trailer_flags true false true = (refl, refl)
no_trailer_flags true false false = (refl, refl)
no_trailer_flags false true true = (refl, refl)
no_trailer_flags false true false = (refl, refl)
no_trailer_flags false false true = (refl, refl)
no_trailer_flags false false false = (refl, refl)

found_lem :
    (block : ℕ) (c1 c2 c3 : Bool) (s : Sector)
    → set_found (condition c1 c2 c3 ∷ []) block s ≡ set_permissions block c1 c2 c3 s
unfolding set_permissions
found_lem block c1 c2 c3 s = rw (condition_bits c1 c2 c3)

-- A block that is not the trailer, and the rights that the table has for three condition bits: the call does
-- what the call with the three bits does.
pub set_permissions_flag-data :
    (block : ℕ) (c1 c2 c3 : Bool) (s : Sector)
    → block < size s
    → block ≢ last_index s
    → set_permissions_flag block (rights access_block c1 c2 c3) s ≡ set_permissions block c1 c2 c3 s
set_permissions_flag-data block c1 c2 c3 s h ne =
    let flags = no_trailer_flags c1 c2 c3 in
    data_search block (rights access_block c1 c2 c3) s h ne flags.0 flags.1
    ∙ ap (λ tab. set_found tab block s) (found_in_block c1 c2 c3)
    ∙ found_lem block c1 c2 c3 s

no_increment : (c1 c2 c3 : Bool) → has_flag (rights access_trailer c1 c2 c3) b_increment ≡ false
unfolding of_bits
no_increment true true true = refl
no_increment true true false = refl
no_increment true false true = refl
no_increment true false false = refl
no_increment false true true = refl
no_increment false true false = refl
no_increment false false true = refl
no_increment false false false = refl

-- The last two rows of the trailer's table are the same set of rights.
found_in_trailer :
    (c1 c2 c3 : Bool)
    → indices_from 0 (rights access_trailer c1 c2 c3) access_trailer
      ≡ (if c1 && c2 then 6 ∷ 7 ∷ [] else condition c1 c2 c3 ∷ [])
unfolding of_bits
found_in_trailer true true true = refl
found_in_trailer true true false = refl
found_in_trailer true false true = refl
found_in_trailer true false false = refl
found_in_trailer false true true = refl
found_in_trailer false true false = refl
found_in_trailer false false true = refl
found_in_trailer false false false = refl

-- The trailer, and the rights that its table has for three condition bits: where the first two are
-- both set the call is refused and changes nothing; otherwise it does what the call with the three bits does.
pub set_permissions_flag-trailer :
    (block : ℕ) (c1 c2 c3 : Bool) (s : Sector)
    → block < size s
    → block ≡ last_index s
    → set_permissions_flag block (rights access_trailer c1 c2 c3) s
      ≡ (if c1 && c2 then some (false, s) else set_permissions block c1 c2 c3 s)
set_permissions_flag-trailer block c1 c2 c3 s h e =
    trailer_search block (rights access_trailer c1 c2 c3) s h e (no_increment c1 c2 c3)
    ∙ ap (λ tab. set_found tab block s) (found_in_trailer c1 c2 c3)
    ∙ by_condition c1 c2 c3
  where
    by_condition :
        (c1 c2 c3 : Bool)
        → set_found (if c1 && c2 then 6 ∷ 7 ∷ [] else condition c1 c2 c3 ∷ []) block s
          ≡ (if c1 && c2 then some (false, s) else set_permissions block c1 c2 c3 s)
    by_condition true true c3 = refl
    by_condition true false c3 = found_lem block true false c3 s
    by_condition false c2 c3 = found_lem block false c2 c3 s

not_found :
    (p i : ℕ) (table : List ℕ)
    → ((k : ℕ) → k < length table → get_or table k 0 ≢ p)
    → indices_from i p table ≡ []
not_found p i [] h = refl
not_found p i (x ∷ table) h =
    rw (==_ne x p (h 0 (omega arith))) (not_found p (suc i) table (λ k lt. h (suc k) (omega arith)))

refused {ℓ} :
    {A : Type ℓ} (x y z : Bool) (a : A) → (if x then a else if y then a else if z then a else a) ≡ a
refused true y z a = refl
refused false true z a = refl
refused false false true a = refl
refused false false false a = refl

refused_late {ℓ} : {A : Type ℓ} (x y : Bool) (a : A) → (if x then a else if y then a else a) ≡ a
refused_late true y a = refl
refused_late false true a = refl
refused_late false false a = refl

unlisted_search :
    (p : ℕ) (is_last : Bool)
    → ((k : ℕ) → k < 8 → get_or (if is_last then access_trailer else access_block) k 0 ≢ p)
    → indices_from 0 p (if is_last then access_trailer else access_block) ≡ []
unlisted_search p true h = not_found p 0 access_trailer h
unlisted_search p false h = not_found p 0 access_block h

-- Rights that the block's table does not list are refused, and so is a block that the sector does
-- not have; nothing changes.
pub set_permissions_flag_refuses :
    (block p : ℕ) (s : Sector)
    → (size s ≤ block)
      ⊎ ((k : ℕ)
          → k < 8
          → get_or (if block == last_index s then access_trailer else access_block) k 0 ≢ p)
    → set_permissions_flag block p s ≡ some (false, s)
unfolding set_permissions_flag
set_permissions_flag_refuses block p s (inl out) = rw (le→leb (size s) block out) (
    refused_late (block == last_index s && has_flag p b_increment)
      (not (block == last_index s) && (has_flag p a_write_a || has_flag p b_write_a))
      (some (false, s)))
set_permissions_flag_refuses block p s (inr unlisted) =
    rw (unlisted_search p (block == last_index s) unlisted) (
      refused (block == last_index s && has_flag p b_increment)
        (not (block == last_index s) && (has_flag p a_write_a || has_flag p b_write_a))
        (leb (size s) block) (some (false, s)))
