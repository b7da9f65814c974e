-- ===== src/Bar/Visit/Seen.antt =====
-- A round of the loop of `Bar::run` (src/bar.cpp) from its start to a card that has been read, whatever key
-- is pressed and whatever orders there are.
use programme_bee_gadz.Common.{
  ℕ, suc, ◌≡◌, refl, ap, ◌∙◌, not, Option, ◌&&◌, ok, handle, pure, List, Bool, false, Bool-cases,
  inl, inr, take, leb, ◌+◌,
}
use mathlib.Core.Path.{subst}
use programme_bee_gadz.Mifare.{Libnfc, Target}
use programme_bee_gadz.Card.Tag.{IsMifare}
use programme_bee_gadz.Card.Tag.Fresh.{IsFound}
use programme_bee_gadz.Mode.{set_command, print}
use programme_bee_gadz.Mode.Members.{FloatUnit, World}
use programme_bee_gadz.Mode.Reader.{Next, is_held}
use programme_bee_gadz.Mode.Aside.{Printed, Printed-refl, print-Printed}
use programme_bee_gadz.Mode.Laid.{IsSeen, IsRead}
use programme_bee_gadz.Bar.{BarRun, is_empty}
use programme_bee_gadz.Bar.Round.{is_minus, by_key, by_time, cancel, serve, attend, bar_round}
use programme_bee_gadz.Bar.Visit.Reading.{arrive, arrive_first}
use programme_bee_gadz.Bar.Visit.Dropping.{screen_only}

module _ {D F : Type 0} where
  by_key-Printed :
      (timer : ℕ) (key : Option ℕ) (b : BarRun D F)
      → ((by_key timer key b).0 ≡ ok tt) × Printed b.desk (by_key timer key b).1.desk
  unfolding by_key cancel set_command
  by_key-Printed timer key b = elim (Bool-cases (is_minus key && not (is_empty b.conso))) [
    | inl e ↦ rw e (refl, screen_only b.desk _ _ refl)
    | inr e ↦ rw e (refl, Printed-refl b.desk)
  ]

  by_time-Printed :
      (timer : ℕ) (b : BarRun D F)
      → ((by_time timer b).0 ≡ ok tt) × Printed b.desk (by_time timer b).1.desk
  unfolding by_time cancel set_command
  by_time-Printed timer b = elim (Bool-cases (not (is_empty b.conso) && leb (b.time + 10) timer)) [
    | inl e ↦ rw e (refl, screen_only b.desk _ _ refl)
    | inr e ↦ rw e (refl, Printed-refl b.desk)
  ]

module _ {D F : Type 0} {nfc : Libnfc D} {content : D → ℕ → List ℕ} {opened : D → ℕ → Bool}
    {key : List ℕ} {target : Target} (found : IsFound nfc content target)
    (reader : IsMifare nfc content opened key (take 4 target.uid)) (float : FloatUnit F)
    (world : World F) where
  attend_seen :
      (b : BarRun D F)
      → IsSeen key target world false b.desk
      → (b' : BarRun D F) × (timer : ℕ) × (attend nfc float world b
          ≡ serve nfc float world timer b')
        × IsRead content key target b.desk.env.device b'.desk
  unfolding attend
  attend_seen b seen =
      let timer = world.times b.desk.ticks in
      let pressed = world.keys b.desk.strokes in
      let b1 = record b {
        desk = record b.desk { ticks = suc b.desk.ticks; strokes = suc b.desk.strokes };
      } in
      let (keyed, p) = by_key-Printed timer pressed b1 in
      let b2 = (by_key timer pressed b1).1 in
      let (timed, q) = by_time-Printed timer b2 in
      let b3 = (by_time timer b2).1 in
      let (b', served, v, w) =
        arrive_first found seen.known seen.four reader float world seen.raw timer b3
          (q.card ∙ p.card ∙ seen.nothing)
          (ap (λ c. c.key) (q.aside.config ∙ p.aside.config) ∙ seen.keys) seen.six in
      let starts : attend nfc float world b
          ≡ arrive nfc float world timer (is_held b3.desk.card) b3 =
        rw (keyed, timed) refl in
      (
        b',
        timer,
        starts ∙ served,
        subst (λ d. IsRead content key target d b'.desk) (q.device ∙ p.device) v,
      )

  pub round_seen :
      (b : BarRun D F)
      → IsSeen key target world false b.desk
      → (b' : BarRun D F) × (timer : ℕ) × (bar_round nfc float world b
          ≡ handle (pure Next.again) (serve nfc float world timer b'))
        × IsRead content key target b.desk.env.device b'.desk
  unfolding bar_round
  round_seen b seen =
      let (done, p) = print-Printed world b.desk in
      let b1 = record b { desk = (print world b.desk).1 } in
      let (b', timer, served, v) = attend_seen b1 (record {
        known = seen.known;
        four = seen.four;
        raw = seen.raw;
        nothing = p.card ∙ seen.nothing;
        keys = ap (λ c. c.key) p.aside.config ∙ seen.keys;
        six = seen.six;
      }) in
      (
        b',
        timer,
        rw done (ap (handle (pure Next.again)) served),
        subst (λ d. IsRead content key target d b'.desk) p.device v,
      )
