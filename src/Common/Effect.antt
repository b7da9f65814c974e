-- ===== src/Common/Effect.antt =====
-- An action on a state `S`: it returns a value, throws `std::exception`, or leaves defined
-- behaviour, as by a read past the end of an array (`fault`). A throw keeps what was written.
use mathlib.Core.Bool.{Bool, true, false}
use mathlib.Core.Option.{Option, none, some}
use mathlib.Core.Path.{◌≡◌, refl, ap}
use mathlib.Core.Logic.{◌⊎◌, inl, inr}

pub data Result (A : Type 0) : Type 0 where
  ok : A → Result A
  threw : Result A
  fault : Result A

abbrev pub Action : Type 0 → Type 0 → Type 0
Action S A = S → Result A × S

module _ {S A : Type 0} where
  abbrev pub pure : A → Action S A
  pure a s = (ok a, s)

  abbrev pub throw : Action S A
  throw s = (threw, s)

  abbrev pub gets : (S → A) → Action S A
  gets f s = (ok (f s), s)

  -- An access that is in range, or a fault.
  abbrev pub in_range : Option A → Action S A
  in_range none s = (fault, s)
  in_range (some a) s = (ok a, s)

-- What follows a call that ended in the state beside its result.
abbrev pub continue : {S A B : Type 0} → (A → Action S B) → Result A × S → Result B × S
continue f (ok a, s) = f a s
continue f (threw, s) = (threw, s)
continue f (fault, s) = (fault, s)

infixl 5 ◌>>=◌ ◌>>◌
abbrev pub ◌>>=◌ : {S A B : Type 0} → Action S A → (A → Action S B) → Action S B
◌>>=◌ m f s = continue f (m s)

abbrev pub ◌>>◌ : {S B : Type 0} → Action S (Unit {0}) → Action S B → Action S B
m >> k = m >>= λ _. k

module _ {S : Type 0} where
  abbrev pub modify : (S → S) → Action S (Unit {0})
  modify f s = (ok tt, f s)

  abbrev pub when : Bool → Action S (Unit {0}) → Action S (Unit {0})
  when true m s = m s
  when false m s = (ok tt, s)

  abbrev pub handle : {A : Type 0} → Action S A → Result A × S → Result A × S
  handle h (ok a, s) = (ok a, s)
  handle h (threw, s) = h s
  handle h (fault, s) = (fault, s)

  -- `try { m } catch (std::exception &) { h }`
  abbrev pub catch : {A : Type 0} → Action S A → Action S A → Action S A
  catch m h s = handle h (m s)

module _ {S A B : Type 0} where
  continue_ok :
      (f : A → Action S B) (r : Result A) (s : S) {a : A} → r ≡ ok a → continue f (r, s) ≡ f a s
  continue_ok f (ok b) s e = let same : b ≡ _ = cc in ap (λ x. f x s) same
  continue_ok f threw s e = cc
  continue_ok f fault s e = cc

  continue_threw :
      (f : A → Action S B) (r : Result A) (s : S) → r ≡ threw → continue f (r, s) ≡ (threw, s)
  continue_threw f (ok b) s e = cc
  continue_threw f threw s e = refl
  continue_threw f fault s e = cc

  continue_fault :
      (f : A → Action S B) (r : Result A) (s : S) → r ≡ fault → continue f (r, s) ≡ (fault, s)
  continue_fault f (ok b) s e = cc
  continue_fault f threw s e = cc
  continue_fault f fault s e = refl

  -- A call that returns hands its value and its state on; one that does not ends the block.
  pub bind_ok :
      (m : Action S A) (f : A → Action S B) (s : S) {a : A}
      → (m s).0 ≡ ok a
      → (m >>= f) s ≡ f a (m s).1
  bind_ok m f s e = continue_ok f (m s).0 (m s).1 e

  pub bind_threw :
      (m : Action S A) (f : A → Action S B) (s : S)
      → (m s).0 ≡ threw
      → (m >>= f) s ≡ (threw, (m s).1)
  bind_threw m f s e = continue_threw f (m s).0 (m s).1 e

  pub bind_fault :
      (m : Action S A) (f : A → Action S B) (s : S)
      → (m s).0 ≡ fault
      → (m >>= f) s ≡ (fault, (m s).1)
  bind_fault m f s e = continue_fault f (m s).0 (m s).1 e

-- The ways in which a call can end, with the equation.
pub Result-cases :
    {A : Type 0} (r : Result A) → ((a : A) × (r ≡ ok a)) ⊎ ((r ≡ threw) ⊎ (r ≡ fault))
Result-cases (ok a) = inl (a, refl)
Result-cases threw = inr (inl refl)
Result-cases fault = inr (inr refl)

module _ {S A B : Type 0} (b : B) where
  pub continue-ne :
      (f : A → Action S B)
      → ((a : A) (s : S) → (f a s).0 ≡ ok b → ⊥)
      → (r : Result A × S) → (continue f r).0 ≡ ok b
      → ⊥
  continue-ne f never (ok a, s) e = never a s e
  continue-ne f never (threw, s) e = cc
  continue-ne f never (fault, s) e = cc
