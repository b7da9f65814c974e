-- ===== src/Bar/Visit/Dropping.antt =====
-- The head of a round of the loop of `Bar::run` (src/bar.cpp) that drops the orders, and a DEBIT card where
-- there are none.
use programme_bee_gadz.Common.{
  ℕ, ◌+◌, ◌≤◌, ◌≡◌, ◌⊎◌, refl, ap, ◌∙◌, true, false, Option, List, [], ◌∷◌, ok, continue, pure,
  codes, Bool-cases, inl, inr, leb, leb_le, arith,
}
use programme_bee_gadz.Block.{Block, memory}
use programme_bee_gadz.Mifare.{Libnfc}
use programme_bee_gadz.Mode.{c_string, set_command, is_admin, is_sos, is_debit, is_conso}
use programme_bee_gadz.NfcDevice.{Env}
use programme_bee_gadz.Mode.Memory.{Holds}
use programme_bee_gadz.Mode.Kinds.{get_credit_lem}
use programme_bee_gadz.Mode.Members.{FloatUnit, Line, World, Desk}
use programme_bee_gadz.Mode.Reader.{Next}
use programme_bee_gadz.Mode.Aside.{around, Printed}
use programme_bee_gadz.Bar.{BarRun, is_empty}
use programme_bee_gadz.Bar.Round.{is_minus, by_key, by_time, cancel, by_kind, serve, show_credit}
use programme_bee_gadz.Bar.Visit.{test_as}

-- The key `-` is pressed, or the orders are ten seconds old.
abbrev pub Drops : {D F : Type 0} → ℕ → Option ℕ → BarRun D F → Type 0
Drops timer key b = (is_minus key ≡ true) ⊎ (b.time + 10 ≤ timer)

module _ {D F : Type 0} where
  -- What the head of a round leaves
  pub record HasDropped (timer : ℕ) (key : Option ℕ) (b : BarRun D F) : Type 0 where
    pub keyed : (by_key timer key b).0 ≡ ok tt
    pub timed : (by_time timer (by_key timer key b).1).0 ≡ ok tt
    pub none_left : (by_time timer (by_key timer key b).1).1.conso ≡ []
    pub printed : Printed b.desk (by_time timer (by_key timer key b).1).1.desk

  pub screen_only :
      (k : Desk D F) (e : Env D) (screen : List (List Line))
      → e.device ≡ k.env.device
      → Printed k (record k { env = e; screen = screen })
  screen_only k e screen same = record { aside = around; card = refl; device = same }

  dropped_by_key :
      (timer : ℕ) (key : Option ℕ) (b : BarRun D F)
      → is_empty b.conso ≡ false
      → is_minus key ≡ true
      → HasDropped timer key b
  unfolding by_key by_time cancel set_command
  dropped_by_key timer key b there minus = record {
    keyed = rw (minus, there) refl;
    timed = rw (minus, there) refl;
    none_left = rw (minus, there) refl;
    printed = rw (minus, there) (screen_only b.desk _ _ refl);
  }

  dropped_by_time :
      (timer : ℕ) (key : Option ℕ) (b : BarRun D F)
      → is_empty b.conso ≡ false
      → is_minus key ≡ false
      → leb (b.time + 10) timer ≡ true
      → HasDropped timer key b
  unfolding by_key by_time cancel set_command
  dropped_by_time timer key b there other late = record {
    keyed = rw other refl;
    timed = rw (other, there, late) refl;
    none_left = rw (other, there, late) refl;
    printed = rw (other, there, late) (screen_only b.desk _ _ refl);
  }

  pub drops :
      (timer : ℕ) (key : Option ℕ) (b : BarRun D F)
      → is_empty b.conso ≡ false
      → Drops timer key b
      → HasDropped timer key b
  drops timer key b there (inl minus) = dropped_by_key timer key b there minus
  drops timer key b there (inr late) = elim (Bool-cases (is_minus key)) [
    | inl minus ↦ dropped_by_key timer key b there minus
    | inr other ↦ dropped_by_time timer key b there other (leb_le (b.time + 10) timer late)
  ]

module _ {D F : Type 0} (nfc : Libnfc D) (float : FloatUnit F) (world : World F) (timer : ℕ)
    (b : BarRun D F) (b0 b1 : Block) (rest : List Block) (holds : Holds b.desk (b0 ∷ b1 ∷ rest))
    (named : c_string (memory b0) ≡ codes "DEBIT") where
  pub serve_empty :
      is_empty b.conso ≡ true
      → serve nfc float world timer b
        ≡ continue (λ u. pure Next.again) (show_credit nfc float world b)
  unfolding serve by_kind is_admin is_sos is_conso is_debit
  serve_empty nothing =
      let is = test_as nfc float world timer b b0 (b1 ∷ rest) holds (codes "DEBIT") named in
      rw (is (codes "ADMIN"), is (codes "SOS"), is (codes "DEBIT"), is (codes "CONSO"), nothing)
        refl

  pub show_credit-Printed :
      ((show_credit nfc float world b).0 ≡ ok tt)
      × ((show_credit nfc float world b).1.conso ≡ b.conso)
      × Printed b.desk (show_credit nfc float world b).1.desk
  unfolding show_credit set_command
  show_credit-Printed =
      let credit = get_credit_lem float b.desk b0 b1 rest holds named in
      rw credit (refl, refl, screen_only b.desk _ _ refl)

-- The key `-` is pressed in the round, or the orders are ten seconds old in it.
abbrev pub Stops : {D F : Type 0} → World F → BarRun D F → Type 0
Stops world b =
    (is_minus (world.keys b.desk.strokes) ≡ true) ⊎ ((n : ℕ) → b.time + 10 ≤ world.times n)

pub Stops-Drops :
    {D F : Type 0} (world : World F) (b b' : BarRun D F) (timer : ℕ)
    → b'.desk.strokes ≡ b.desk.strokes
    → b'.time ≡ b.time
    → Stops world b
    → Drops (world.times timer) (world.keys b'.desk.strokes) b'
Stops-Drops world b b' timer same time (inl minus) =
    inl (ap (λ n. is_minus (world.keys n)) same ∙ minus)
Stops-Drops world b b' timer same time (inr late) = inr (let l = late timer in omega arith)
