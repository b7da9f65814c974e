-- ===== src/Common/Lists.antt =====
-- Arrays and vectors as lists, indexed by native numbers, under the library's names.
use Prim.Native.Nat.{ℕ, zero, suc, ◌+◌, ◌<◌, ◌≤◌}
use mathlib.Core.Path.{◌≡◌, refl, ap, ap₂}
use mathlib.Core.Logic.{◌≢◌}
use mathlib.Core.List.{List, [], ◌∷◌}
use mathlib.Core.Option.{Option, none, some}
use native.Mathlib.Omega.{arith}

module _ {ℓ} {A : Type ℓ} where
  abbrev pub length : List A → ℕ
  length [] = 0
  length (x ∷ xs) = suc (length xs)

  abbrev pub get_elem? : List A → ℕ → Option A
  get_elem? [] i = none
  get_elem? (x ∷ xs) zero = some x
  get_elem? (x ∷ xs) (suc i) = get_elem? xs i

  abbrev pub get_or : List A → ℕ → A → A
  get_or [] i d = d
  get_or (x ∷ xs) zero d = x
  get_or (x ∷ xs) (suc i) d = get_or xs i d

  -- A write out of bounds changes nothing.
  abbrev pub set : List A → ℕ → A → List A
  set [] i v = []
  set (x ∷ xs) zero v = v ∷ xs
  set (x ∷ xs) (suc i) v = x ∷ set xs i v

  abbrev pub take : ℕ → List A → List A
  take zero xs = []
  take (suc n) [] = []
  take (suc n) (x ∷ xs) = x ∷ take n xs

  abbrev pub drop : ℕ → List A → List A
  drop zero xs = xs
  drop (suc n) [] = []
  drop (suc n) (x ∷ xs) = drop n xs

  abbrev pub replicate : ℕ → A → List A
  replicate zero a = []
  replicate (suc n) a = a ∷ replicate n a

  -- `memcpy(dst + k, src, …)`: what would fall past the end is not written.
  abbrev pub write_at : ℕ → List A → List A → List A
  write_at k src [] = []
  write_at zero [] (d ∷ dst) = d ∷ dst
  write_at zero (s ∷ src) (d ∷ dst) = s ∷ write_at zero src dst
  write_at (suc k) src (d ∷ dst) = d ∷ write_at k src dst

module _ {ℓ} {A : Type ℓ} where
  pub length-set : (xs : List A) (i : ℕ) (v : A) → length (set xs i v) ≡ length xs
  length-set [] i v = refl
  length-set (x ∷ xs) zero v = refl
  length-set (x ∷ xs) (suc i) v = ap suc (length-set xs i v)

  pub get_elem?-set_self :
      (xs : List A) (i : ℕ) (v : A) → i < length xs → get_elem? (set xs i v) i ≡ some v
  get_elem?-set_self [] i v h = absurd (omega arith)
  get_elem?-set_self (x ∷ xs) zero v h = refl
  get_elem?-set_self (x ∷ xs) (suc i) v h = get_elem?-set_self xs i v (omega arith)

  pub get_elem?-set_ne :
      (xs : List A) (i j : ℕ) (v : A) → i ≢ j → get_elem? (set xs i v) j ≡ get_elem? xs j
  get_elem?-set_ne [] i j v ne = refl
  get_elem?-set_ne (x ∷ xs) zero zero v ne = absurd (ne refl)
  get_elem?-set_ne (x ∷ xs) zero (suc j) v ne = refl
  get_elem?-set_ne (x ∷ xs) (suc i) zero v ne = refl
  get_elem?-set_ne (x ∷ xs) (suc i) (suc j) v ne = get_elem?-set_ne xs i j v (λ e. ne (ap suc e))

  pub get_elem?-eq-get_or :
      (xs : List A) (i : ℕ) (d : A) → i < length xs → get_elem? xs i ≡ some (get_or xs i d)
  get_elem?-eq-get_or [] i d h = absurd (omega arith)
  get_elem?-eq-get_or (x ∷ xs) zero d h = refl
  get_elem?-eq-get_or (x ∷ xs) (suc i) d h = get_elem?-eq-get_or xs i d (omega arith)

  pub lt_of_get_elem? : (xs : List A) (i : ℕ) {v : A} → get_elem? xs i ≡ some v → i < length xs
  lt_of_get_elem? [] i e = cc
  lt_of_get_elem? (x ∷ xs) zero e = omega arith
  lt_of_get_elem? (x ∷ xs) (suc i) e = omega (arith, lt_of_get_elem? xs i e)

  pub get_elem?-some : (xs : List A) (i : ℕ) → i < length xs → (a : A) × (get_elem? xs i ≡ some a)
  get_elem?-some [] i h = absurd (omega arith)
  get_elem?-some (x ∷ xs) zero h = (x, refl)
  get_elem?-some (x ∷ xs) (suc i) h = get_elem?-some xs i (omega arith)

  pub get_elem?-ext : (xs ys : List A) → ((i : ℕ) → get_elem? xs i ≡ get_elem? ys i) → xs ≡ ys
  get_elem?-ext [] [] h = refl
  get_elem?-ext [] (y ∷ ys) h = cc (h 0)
  get_elem?-ext (x ∷ xs) [] h = cc (h 0)
  get_elem?-ext (x ∷ xs) (y ∷ ys) h =
      let tails : xs ≡ ys = get_elem?-ext xs ys (λ i. h (suc i)) in cc (h 0)

  pub length-replicate : (n : ℕ) (a : A) → length (replicate n a) ≡ n
  length-replicate zero a = refl
  length-replicate (suc n) a = ap suc (length-replicate n a)

  pub get_elem?-replicate : (n i : ℕ) (a : A) → i < n → get_elem? (replicate n a) i ≡ some a
  get_elem?-replicate zero i a h = absurd (omega arith)
  get_elem?-replicate (suc n) zero a h = refl
  get_elem?-replicate (suc n) (suc i) a h = get_elem?-replicate n i a (omega arith)

  pub length-write_at : (k : ℕ) (src dst : List A) → length (write_at k src dst) ≡ length dst
  length-write_at zero [] [] = refl
  length-write_at zero (s ∷ src) [] = refl
  length-write_at (suc k) src [] = refl
  length-write_at zero [] (d ∷ dst) = refl
  length-write_at zero (s ∷ src) (d ∷ dst) = ap suc (length-write_at zero src dst)
  length-write_at (suc k) src (d ∷ dst) = ap suc (length-write_at k src dst)

  -- A whole copy: the destination's old contents are gone.
  pub write_at_all : (src dst : List A) → length src ≡ length dst → write_at 0 src dst ≡ src
  write_at_all [] [] e = refl
  write_at_all [] (d ∷ dst) e = absurd (omega arith)
  write_at_all (s ∷ src) [] e = absurd (omega arith)
  write_at_all (s ∷ src) (d ∷ dst) e = ap (λ r. s ∷ r) (write_at_all src dst (omega arith))

  pub length-drop-write_at :
      (k : ℕ) (src dst : List A)
      → k + length src ≤ length dst
      → take (length src) (drop k (write_at k src dst)) ≡ src
  length-drop-write_at zero [] dst h = refl
  length-drop-write_at zero (s ∷ src) [] h = absurd (omega arith)
  length-drop-write_at zero (s ∷ src) (d ∷ dst) h =
      ap (λ r. s ∷ r) (length-drop-write_at zero src dst (omega arith))
  length-drop-write_at (suc k) src [] h = absurd (omega arith)
  length-drop-write_at (suc k) src (d ∷ dst) h = length-drop-write_at k src dst (omega arith)

module _ {ℓ} {A : Type ℓ} where
  pub get_or-set_self :
      (xs : List A) (i : ℕ) (v d : A) → i < length xs → get_or (set xs i v) i d ≡ v
  get_or-set_self [] i v d h = absurd (omega arith)
  get_or-set_self (x ∷ xs) zero v d h = refl
  get_or-set_self (x ∷ xs) (suc i) v d h = get_or-set_self xs i v d (omega arith)

  pub get_or-set_ne :
      (xs : List A) (i j : ℕ) (v d : A) → i ≢ j → get_or (set xs i v) j d ≡ get_or xs j d
  get_or-set_ne [] i j v d ne = refl
  get_or-set_ne (x ∷ xs) zero zero v d ne = absurd (ne refl)
  get_or-set_ne (x ∷ xs) zero (suc j) v d ne = refl
  get_or-set_ne (x ∷ xs) (suc i) zero v d ne = refl
  get_or-set_ne (x ∷ xs) (suc i) (suc j) v d ne = get_or-set_ne xs i j v d (λ e. ne (ap suc e))

  pub get_or_past : (xs : List A) (i : ℕ) (d : A) → length xs ≤ i → get_or xs i d ≡ d
  get_or_past [] i d h = refl
  get_or_past (x ∷ xs) zero d h = absurd (omega arith)
  get_or_past (x ∷ xs) (suc i) d h = get_or_past xs i d (omega arith)

  pub get_or_ext :
      (d : A) (xs ys : List A)
      → length xs ≡ length ys
      → ((i : ℕ) → get_or xs i d ≡ get_or ys i d)
      → xs ≡ ys
  get_or_ext d [] [] e h = refl
  get_or_ext d [] (y ∷ ys) e h = absurd (omega arith)
  get_or_ext d (x ∷ xs) [] e h = absurd (omega arith)
  get_or_ext d (x ∷ xs) (y ∷ ys) e h =
      ap₂ ◌∷◌ (h 0) (get_or_ext d xs ys (omega arith) (λ i. h (suc i)))

  pub take-whole : (n : ℕ) (xs : List A) → length xs ≡ n → take n xs ≡ xs
  take-whole zero [] e = refl
  take-whole zero (x ∷ xs) e = absurd (omega arith)
  take-whole (suc n) [] e = refl
  take-whole (suc n) (x ∷ xs) e = ap (λ rest. x ∷ rest) (take-whole n xs (omega arith))

  pub take-write_at :
      (src dst : List A) → length src ≤ length dst → take (length src) (write_at 0 src dst) ≡ src
  take-write_at [] dst h = refl
  take-write_at (x ∷ src) [] h = absurd (omega arith)
  take-write_at (x ∷ src) (y ∷ dst) h = ap (λ rest. x ∷ rest) (take-write_at src dst (omega arith))

  pub write_nothing : (xs : List A) → write_at 0 [] xs ≡ xs
  write_nothing [] = refl
  write_nothing (x ∷ xs) = refl

  pub set-set : (xs : List A) (i : ℕ) (v w : A) → set (set xs i v) i w ≡ set xs i w
  set-set [] i v w = refl
  set-set (x ∷ xs) zero v w = refl
  set-set (x ∷ xs) (suc i) v w = ap (λ rest. x ∷ rest) (set-set xs i v w)

  pub set_same : (xs : List A) (i : ℕ) {v : A} → get_elem? xs i ≡ some v → set xs i v ≡ xs
  set_same [] i e = refl
  set_same (x ∷ xs) zero {v} e = let same : v ≡ x = cc in rw same refl
  set_same (x ∷ xs) (suc i) e = ap (λ rest. x ∷ rest) (set_same xs i e)

  -- What is left after `i` elements, taken apart.
  pub drop-cons :
      (xs : List A) (i : ℕ) {y : A} {ys : List A}
      → drop i xs ≡ y ∷ ys
      → (get_elem? xs i ≡ some y) × (drop (suc i) xs ≡ ys)
  drop-cons [] zero e = cc
  drop-cons [] (suc i) e = cc
  drop-cons (x ∷ xs) zero e = (cc, cc)
  drop-cons (x ∷ xs) (suc i) e = drop-cons xs i e
