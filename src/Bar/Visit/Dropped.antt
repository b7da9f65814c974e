-- ===== src/Bar/Visit/Dropped.antt =====
-- A round of the loop of `Bar::run` (src/bar.cpp) in which the orders are dropped before a DEBIT card is
-- looked at: the key `-` is pressed, or they are ten seconds old.
use programme_bee_gadz.Common.{
  ℕ, suc, ◌≡◌, refl, ap, ◌∙◌, Bool, false, List, [], ◌∷◌, ok, handle, pure, codes, set, take, inl,
  inr,
}
use mathlib.Core.Path.{subst}
use programme_bee_gadz.Block.{memory}
use programme_bee_gadz.Mifare.{Libnfc, Target}
use programme_bee_gadz.Card.Tag.{IsMifare}
use programme_bee_gadz.Card.Tag.Fetching.{clean_block}
use programme_bee_gadz.Card.Tag.Reading.{sector_of}
use programme_bee_gadz.Card.Tag.Fresh.{IsFound, unread_blocks}
use programme_bee_gadz.Mode.{c_string, print}
use programme_bee_gadz.Mode.Memory.{Holds}
use programme_bee_gadz.Mode.Members.{FloatUnit, World}
use programme_bee_gadz.Mode.Reader.{Next, is_held}
use programme_bee_gadz.Mode.OnTag.{CardStands-Holds}
use programme_bee_gadz.Mode.Aside.{print-Printed}
use programme_bee_gadz.Mode.Laid.{IsSeen, IsRead, ended}
use programme_bee_gadz.Bar.{BarRun, is_empty}
use programme_bee_gadz.Bar.Round.{is_minus, by_key, by_time, serve, show_credit, attend, bar_round}
use programme_bee_gadz.Bar.Visit.Reading.{arrive, arrive_first}
use programme_bee_gadz.Bar.Visit.Dropping.{
  Stops, Stops-Drops, drops, serve_empty, show_credit-Printed,
}

module _ {D F : Type 0} {nfc : Libnfc D} {content : D → ℕ → List ℕ} {opened : D → ℕ → Bool}
    {key : List ℕ} {target : Target} (found : IsFound nfc content target)
    (reader : IsMifare nfc content opened key (take 4 target.uid)) (float : FloatUnit F)
    (world : World F) where
  attend_dropped :
      (b : BarRun D F)
      → IsSeen key target world false b.desk
      → is_empty b.conso ≡ false
      → Stops world b
      → (b' : BarRun D F) × (timer : ℕ) × (attend nfc float world b
          ≡ serve nfc float world timer b')
        × IsRead content key target b.desk.env.device b'.desk
        × (b'.desk.requests ≡ b.desk.requests)
        × (b'.conso ≡ [])
  unfolding attend
  attend_dropped b seen there stops =
      let timer = world.times b.desk.ticks in
      let pressed = world.keys b.desk.strokes in
      let b1 = record b {
        desk = record b.desk { ticks = suc b.desk.ticks; strokes = suc b.desk.strokes };
      } in
      let d = drops timer pressed b1 there (Stops-Drops world b b b.desk.ticks refl refl stops) in
      let b2 = (by_time timer (by_key timer pressed b1).1).1 in
      let p = d.printed in
      let (b', served, v, w) =
        arrive_first found seen.known seen.four reader float world seen.raw timer b2
          (p.card ∙ seen.nothing) (ap (λ c. c.key) p.aside.config ∙ seen.keys) seen.six in
      let starts : attend nfc float world b
          ≡ arrive nfc float world timer (is_held b2.desk.card) b2 =
        rw (d.keyed, d.timed) refl in
      (
        b',
        timer,
        starts ∙ served,
        subst (λ d. IsRead content key target d b'.desk) p.device v,
        w.requests ∙ p.aside.requests,
        w.conso ∙ d.none_left,
      )

  round_dropped :
      (b : BarRun D F)
      → IsSeen key target world false b.desk
      → is_empty b.conso ≡ false
      → Stops world b
      → (b' : BarRun D F) × (timer : ℕ) × (bar_round nfc float world b
          ≡ handle (pure Next.again) (serve nfc float world timer b'))
        × IsRead content key target b.desk.env.device b'.desk
        × (b'.desk.requests ≡ b.desk.requests)
        × (b'.conso ≡ [])
  unfolding bar_round
  round_dropped b seen there stops =
      let (done, p) = print-Printed world b.desk in
      let b1 = record b { desk = (print world b.desk).1 } in
      let seen1 : IsSeen key target world false b1.desk = record {
        known = seen.known;
        four = seen.four;
        raw = seen.raw;
        nothing = p.card ∙ seen.nothing;
        keys = ap (λ c. c.key) p.aside.config ∙ seen.keys;
        six = seen.six;
      } in
      let stops1 : Stops world b1 = elim stops [
        | inl minus ↦ inl (ap (λ n. is_minus (world.keys n)) p.aside.strokes ∙ minus)
        | inr late ↦ inr late
      ] in
      let (b', timer, served, v, requests, conso) = attend_dropped b1 seen1 there stops1 in
      (
        b',
        timer,
        rw done (ap (handle (pure Next.again)) served),
        subst (λ d. IsRead content key target d b'.desk) p.device v,
        requests ∙ p.aside.requests,
        conso,
      )

-- There are orders, and in this round of the loop of `Bar::run` the key `-` is pressed or they are ten
-- seconds old; a DEBIT card is laid on the reader, where no card was. Then nothing is paid: the orders
-- are empty, the card's tag is as before, and the database has no new line.
pub dropped_orders_are_free :
    {D F : Type 0} {nfc : Libnfc D} {content : D → ℕ → List ℕ} {opened : D → ℕ → Bool}
    {key : List ℕ} {target : Target} (found : IsFound nfc content target)
    (reader : IsMifare nfc content opened key (take 4 target.uid)) (float : FloatUnit F)
    (world : World F) (b : BarRun D F)
    → IsSeen key target world false b.desk
    → is_empty b.conso ≡ false
    → Stops world b
    → c_string (memory (clean_block (content b.desk.env.device 4))) ≡ codes "DEBIT"
    → ((bar_round nfc float world b).0 ≡ ok Next.again)
      × ((bar_round nfc float world b).1.conso ≡ [])
      × ((n : ℕ)
          → content (bar_round nfc float world b).1.desk.env.device n ≡ content b.desk.env.device n)
      × ((bar_round nfc float world b).1.desk.requests ≡ b.desk.requests)
dropped_orders_are_free {nfc = nfc} {content = content} found reader float world b seen there stops
      named =
    let tag = content b.desk.env.device in
    let blocks = set unread_blocks 1 (sector_of tag 1) in
    let b0 = clean_block (tag 4) in
    let b1 = clean_block (tag 5) in
    let rest = clean_block (tag 6) ∷ clean_block (tag 7) ∷ [] in
    let (b', timer, served, v, requests, conso) =
      round_dropped found reader float world b seen there stops in
    let holds : Holds b'.desk (b0 ∷ b1 ∷ rest) = CardStands-Holds b'.desk blocks refl v in
    let (done, orders, p) = show_credit-Printed nfc float world timer b' b0 b1 rest holds named in
    let runs =
      served
      ∙ ap (handle (pure Next.again))
          (serve_empty nfc float world timer b' b0 b1 rest holds named (ap is_empty conso))
      ∙ ended (show_credit nfc float world b') (inl done) in
    let (c, held, s) = v in
    rw runs (
      refl,
      orders ∙ conso,
      λ n. ap (λ d. content d n) p.device ∙ s.on_tag n,
      p.aside.requests ∙ requests,
    )
