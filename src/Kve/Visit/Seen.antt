-- ===== src/Kve/Visit/Seen.antt =====
-- A round of the loop of `Kve::run` (src/kve.cpp) from its start to a card that has been read, whatever key
-- is pressed.
use programme_bee_gadz.Common.{ℕ, suc, ◌≡◌, refl, ap, ◌∙◌, Bool, false, handle, pure, List, take}
use mathlib.Core.Path.{subst}
use programme_bee_gadz.Mifare.{Libnfc, Target}
use programme_bee_gadz.Card.Tag.{IsMifare}
use programme_bee_gadz.Card.Tag.Fresh.{IsFound, unread_blocks}
use programme_bee_gadz.Mode.Members.{FloatUnit, World}
use programme_bee_gadz.Mode.Reader.{Next, is_held, fetch_card}
use programme_bee_gadz.Mode.Laid.{IsSeen, IsRead, fetch_card-CardStands}
use programme_bee_gadz.Kve.{KveRun, by_key, serve, take_card, search_card, attend, kve_round}
use programme_bee_gadz.Kve.Visit.Paying.{by_key-Printed}
use programme_bee_gadz.Kve.Visit.Taking.{arrive, take_card-CardStands}

module _ {D F : Type 0} {nfc : Libnfc D} {content : D → ℕ → List ℕ} {opened : D → ℕ → Bool}
    {key : List ℕ} {target : Target} (found : IsFound nfc content target)
    (reader : IsMifare nfc content opened key (take 4 target.uid)) (float : FloatUnit F)
    (world : World F) where
  pub round_seen :
      (r : KveRun D F)
      → IsSeen key target world false r.desk
      → (r' : KveRun D F) × (kve_round nfc float world r
          ≡ handle (pure Next.again) (serve nfc float world r'))
        × IsRead content key target r.desk.env.device r'.desk
  unfolding kve_round attend search_card
  round_seen r seen =
      let timer = world.times r.desk.ticks in
      let pressed = world.keys r.desk.strokes in
      let r1 = record r {
        desk = record r.desk { ticks = suc r.desk.ticks; strokes = suc r.desk.strokes };
      } in
      let (keyed, p) = by_key-Printed timer pressed r1 in
      let r2 = (by_key timer pressed r1).1 in
      let k3 = record r2.desk { read = false } in
      let (fetched, v, aside) =
        fetch_card-CardStands found seen.known seen.four world seen.raw false k3
          (ap (λ c. c.key) p.aside.config ∙ seen.keys) seen.six in
      let r4 = record r2 { desk = (fetch_card nfc world false k3).1 } in
      let (r', served, v', w) =
        take_card-CardStands reader float world unread_blocks r4 v aside.read in
      let here : arrive nfc float world false r2 ≡ take_card nfc float world r4 = rw fetched refl in
      let starts : attend nfc float world r ≡ arrive nfc float world (is_held r2.desk.card) r2 =
        rw keyed refl in
      (
        r',
        ap (handle (pure Next.again)) (
            starts
            ∙ ap (λ o. arrive nfc float world (is_held o) r2) (p.card ∙ seen.nothing)
            ∙ here
            ∙ served),
        subst (λ d. IsRead content key target d r'.desk) p.device v',
      )
