-- ===== src/Mode/Leaving.antt =====
-- How a round of `run` of a mode returns (src/bar.cpp, src/caisse.cpp, src/kve.cpp): after `isAdmin`
-- (src/mode.cpp) only. What the steps of a round have in common for that.
pub mod Answering
use programme_bee_gadz.Common.{
  ℕ, ◌≡◌, refl, ap, ◌∙◌, sym, Bool, true, false, Option, none, some, List, [], ◌∷◌, Result, ok,
  threw, fault, continue, handle, pure, ◌>>◌, codes, same_text, if◌then◌else◌, get_elem?, in_range,
  ◌>>=◌, not, catch, ◌==◌, modify, Action, Option-cases, inl, inr,
}
use mathlib.Core.Path.{subst}
use programme_bee_gadz.Block.{Block, get_byte, memory}
use programme_bee_gadz.Sector.{Sector}
use programme_bee_gadz.Card.State.{Card, Held, the_sector}
use programme_bee_gadz.Card.Commands.{the_block}
use programme_bee_gadz.Config.{Config, ConfigMode, set_mode}
use programme_bee_gadz.Mode.{
  card_byte, c_string, read_block, test_card, is_admin, is_sos, is_debit, is_conso, has_ticket,
}
use programme_bee_gadz.Mode.Members.{Desk, with_card, put_held}
use programme_bee_gadz.Mode.Reader.{Next}
use programme_bee_gadz.Mode.Memory.{Holds}
use programme_bee_gadz.Mode.Kinds.{test_card_lem}

-- What holds of the value and the state of a call that returns
abbrev pub Gives : {S A : Type 0} → (A → S → Type 0) → Result A × S → Type 0
Gives Q (ok a, s) = Q a s
Gives Q (threw, s) = Unit {0}
Gives Q (fault, s) = Unit {0}

module _ {S A B : Type 0} where
  pub then_Gives :
      (Q : A → S → Type 0) (R : B → S → Type 0) (f : A → Action S B)
      → ((a : A) (s : S) → Q a s → Gives R (f a s))
      → (r : Result A × S) → Gives Q r
      → Gives R (continue f r)
  then_Gives Q R f next (ok a, s) q = next a s q
  then_Gives Q R f next (threw, s) q = tt
  then_Gives Q R f next (fault, s) q = tt

  -- A step of which nothing has to be known
  pub after_Gives :
      (R : B → S → Type 0) (f : A → Action S B)
      → ((a : A) (s : S) → Gives R (f a s))
      → (r : Result A × S) → Gives R (continue f r)
  after_Gives R f next (ok a, s) = next a s
  after_Gives R f next (threw, s) = tt
  after_Gives R f next (fault, s) = tt

module _ {S A : Type 0} where
  pub caught_Gives :
      (R : A → S → Type 0) (h : Action S A)
      → ((s : S) → Gives R (h s))
      → (r : Result A × S) → Gives R r
      → Gives R (handle h r)
  caught_Gives R h handled (ok a, s) q = q
  caught_Gives R h handled (threw, s) q = handled s
  caught_Gives R h handled (fault, s) q = tt

  pub if_Gives :
      (R : A → S → Type 0) (b : Bool) (m n : Action S A)
      → ((s : S) → Gives R (m s))
      → ((s : S) → Gives R (n s))
      → (s : S) → Gives R ((if b then m else n) s)
  if_Gives R true m n p q s = p s
  if_Gives R false m n p q s = q s

  pub Gives_ok : (R : A → S → Type 0) (r : Result A × S) {a : A} → Gives R r → r.0 ≡ ok a → R a r.1
  Gives_ok R (ok b, s) {a} q e = let same : b ≡ a = cc in subst (λ x. R x s) same q
  Gives_ok R (threw, s) q e = cc
  Gives_ok R (fault, s) q e = cc

module _ {D F : Type 0} where
  -- An ADMIN card is in hand, and the configuration's mode is that of administration.
  pub record HasAdmin (k : Desk D F) : Type 0 where
    pub named : (test_card (codes "ADMIN") k).0 ≡ ok true
    pub mode : k.config.mode ≡ ConfigMode.admin

  -- How a round ends: if `run` returns, it returns true, and an ADMIN card is in hand.
  abbrev pub Leaves : {S : Type 0} → (S → Desk D F) → Next → S → Type 0
  Leaves desk Next.again s = Unit {0}
  Leaves desk (Next.returns x) s = (x ≡ true) × HasAdmin (desk s)

-- The call changes nothing.
abbrev pub Looks : {S A : Type 0} → Action S A → Type 0
Looks {S} m = (s : S) → (m s).1 ≡ s

module _ {S A : Type 0} where
  looks_ok : (P : S → Type 0) (r : Result A) (s s' : S) → s' ≡ s → P s → Gives (λ a t. P t) (r, s')
  looks_ok P (ok a) s s' e q = subst P (sym e) q
  looks_ok P threw s s' e q = tt
  looks_ok P fault s s' e q = tt

  pub look_Gives :
      {B : Type 0} (P : S → Type 0) (R : B → S → Type 0) (m : Action S A) (f : A → Action S B)
      → Looks m
      → ((a : A) (s : S) → P s → Gives R (f a s))
      → (s : S) → P s
      → Gives R (continue f (m s))
  look_Gives P R m f looks next s q =
      then_Gives (λ a t. P t) R f next (m s) (looks_ok P (m s).0 s (m s).1 (looks s) q)

  pub then_Looks :
      {B : Type 0} (m : Action S A) (f : A → Action S B)
      → Looks m
      → ((a : A) → Looks (f a))
      → (s : S) → (continue f (m s)).1 ≡ s
  then_Looks m f first next s = ended (m s) (first s)
    where
      ended : (r : Result A × S) → r.1 ≡ s → (continue f r).1 ≡ s
      ended (ok a, t) e = next a t ∙ e
      ended (threw, t) e = e
      ended (fault, t) e = e

  pub in_range-Looks : (o : Option A) → Looks {S = S} (in_range o)
  in_range-Looks none s = refl
  in_range-Looks (some a) s = refl

module _ {D F S : Type 0} (desk : S → Desk D F) where
  -- A round, or what is left of one, that returns after `isAdmin` only
  abbrev pub Ends : Action S Next → Type 0
  Ends m = (s : S) → Gives (Leaves desk) (m s)

  pub again-Ends : Ends (pure Next.again)
  again-Ends s = tt

  pub after-Ends :
      {A : Type 0} (m : Action S A) (f : A → Action S Next)
      → ((a : A) → Ends (f a))
      → Ends (m >>= f)
  after-Ends m f next s = after_Gives (Leaves desk) f next (m s)

  pub if-Ends : (b : Bool) (m n : Action S Next) → Ends m → Ends n → Ends (if b then m else n)
  if-Ends true m n p q = p
  if-Ends false m n p q = q

  pub caught-Ends : (m : Action S Next) → Ends m → Ends (catch m (pure Next.again))
  caught-Ends m p s = caught_Gives (Leaves desk) (pure Next.again) again-Ends (m s) (p s)

  -- The rest of the chain of tests, after `isAdmin` has answered
  abbrev pub Answers : Bool → Action S Next → Type 0
  Answers admin m = (s : S) → (admin ≡ true → HasAdmin (desk s)) → Gives (Leaves desk) (m s)

  pub look-Answers :
      {A : Type 0} (admin : Bool) (m : Action S A) (f : A → Action S Next)
      → Looks m
      → ((a : A) → Answers admin (f a))
      → Answers admin (m >>= f)
  look-Answers admin m f looks next =
      look_Gives (λ s. admin ≡ true → HasAdmin (desk s)) (Leaves desk) m f looks next

  pub last-Answers :
      (admin : Bool) (m : Action S (Unit {0}))
      → Answers admin (if admin then pure (Next.returns true) else (m >> pure Next.again))
  last-Answers true m s h = (refl, h refl)
  last-Answers false m s h = after_Gives (Leaves desk) (λ u. pure Next.again) (λ u s. tt) (m s)
