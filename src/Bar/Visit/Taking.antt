-- ===== src/Bar/Visit/Taking.antt =====
-- A round of the loop of `Bar::run` (src/bar.cpp) from its start to a card that has been read, where no
-- key is pressed and the orders are not too old.
use programme_bee_gadz.Common.{
  ◌⊎◌, ℕ, suc, ◌+◌, ◌<◌, ◌≡◌, refl, sym, ap, ◌∙◌, Bool, true, false, none, List, ◌∷◌, ok, handle,
  pure, codes, length, set, take, inl, inr, same_text,
}
use mathlib.Core.Path.{subst, fun_ext}
use programme_bee_gadz.Block.{Block}
use programme_bee_gadz.Mifare.{Libnfc, Target}
use programme_bee_gadz.Card.Tag.{IsMifare}
use programme_bee_gadz.Card.Tag.Reading.{sector_of}
use programme_bee_gadz.Card.Tag.Fresh.{IsFound, unread_blocks}
use programme_bee_gadz.Mode.{print, is_conso, test_card}
use programme_bee_gadz.Mode.Memory.{Holds, sector_one}
use programme_bee_gadz.Mode.Kinds.{test_card_lem}
use programme_bee_gadz.Card.State.{Card}
use programme_bee_gadz.Mode.Members.{FloatUnit, World}
use programme_bee_gadz.Mode.Reader.{Next, is_held, fetch_card, still_there}
use programme_bee_gadz.Mode.OnTag.{CardStands}
use programme_bee_gadz.Mode.Aside.{print-Printed}
use programme_bee_gadz.Mode.Laid.{
  IsRead, HasLeft, IsFree, IsFree-card, still_there_gone, fetch_card-CardStands,
}
use programme_bee_gadz.Bar.{is_empty, BarRun}
use programme_bee_gadz.Bar.Round.{
  by_key, by_time, is_minus, card_gone, serve, take_card, look_again, attend, bar_round,
}
use programme_bee_gadz.Bar.Visit.Reading.{
  by_key_empty, by_time_empty, Waits, taken, arrive, by_key_waits, by_time_waits,
  take_card-CardStands, arrive_first,
}

-- No key stops the orders of `b` in a round, and they are not ten seconds old in it.
pub record AreKept {D F : Type 0} (world : World F) (b : BarRun D F) : Type 0 where
  pub no_key : is_minus (world.keys b.desk.strokes) ≡ false
  pub young : (n : ℕ) → world.times n < b.time + 10

-- There are no orders that a round could drop, or it keeps them.
abbrev pub Calm : {D F : Type 0} → World F → BarRun D F → Type 0
Calm world b = (is_empty b.conso ≡ true) ⊎ AreKept world b

Calm-waits :
    {D F : Type 0} (nfc : Libnfc D) (float : FloatUnit F) (world : World F) (b : BarRun D F)
    (ticks strokes : ℕ)
    → (is_empty b.conso ≡ true)
      ⊎ ((is_minus (world.keys strokes) ≡ false) × (world.times ticks < b.time + 10))
    → (by_key (world.times ticks) (world.keys strokes) b ≡ (ok tt, b))
      × (by_time (world.times ticks) b ≡ (ok tt, b))
Calm-waits nfc float world b ticks strokes (inl nothing) = (
  by_key_empty nfc float world (world.times ticks) (world.keys strokes) b nothing,
  by_time_empty nfc float world (world.times ticks) b nothing,
)
Calm-waits nfc float world b ticks strokes (inr (no_key, young)) = (
  by_key_waits nfc float world (world.times ticks) (world.keys strokes) b no_key,
  by_time_waits nfc float world (world.times ticks) b young,
)

Calm-now :
    {D F : Type 0} (world : World F) (b : BarRun D F) (ticks : ℕ)
    → Calm world b
    → (is_empty b.conso ≡ true)
      ⊎ ((is_minus (world.keys b.desk.strokes) ≡ false) × (world.times ticks < b.time + 10))
Calm-now world b ticks (inl nothing) = inl nothing
Calm-now world b ticks (inr kept) = inr (kept.no_key, kept.young ticks)

module _ {D F : Type 0} {nfc : Libnfc D} {content : D → ℕ → List ℕ} {opened : D → ℕ → Bool}
    {key : List ℕ} {target : Target} (found : IsFound nfc content target)
    (known : target.atqa_low ≡ 4) (four : length (take 4 target.uid) ≡ 4)
    (reader : IsMifare nfc content opened key (take 4 target.uid)) (float : FloatUnit F)
    (world : World F) (raw : length world.raw ≡ 16) where
  -- A card is laid on the reader where there was none.
  attend_first :
      (b : BarRun D F)
      → b.desk.card ≡ none
      → b.desk.config.key ≡ key
      → length key ≡ 6
      → Calm world b
      → (b' : BarRun D F) × (timer : ℕ) × (attend nfc float world b
          ≡ serve nfc float world timer b')
        × IsRead content key target b.desk.env.device b'.desk
        × Waits b b'
  unfolding attend
  attend_first b nothing keys six calm =
      let timer = world.times b.desk.ticks in
      let b1 = record b {
        desk = record b.desk { ticks = suc b.desk.ticks; strokes = suc b.desk.strokes };
      } in
      let (b', served, v, w) =
        arrive_first found known four reader float world raw timer b1 nothing keys six in
      let (no_key, young) =
        Calm-waits nfc float world b1 b.desk.ticks b.desk.strokes
          (Calm-now world b b.desk.ticks calm) in
      let starts : attend nfc float world b
          ≡ arrive nfc float world timer (is_held b1.desk.card) b1 =
        rw (no_key, young) refl in
      (
        b',
        timer,
        starts ∙ served,
        v,
        record { config = w.config; requests = w.requests; conso = w.conso },
      )

  -- A card is laid on the reader in the place of a CONSO card.
  attend_next :
      (b : BarRun D F) {c : Card} {b0 : Block} {rest : List Block}
      → HasLeft nfc content c b0 rest b.desk
      → b.desk.config.key ≡ key
      → length key ≡ 6
      → Calm world b
      → (b' : BarRun D F) × (timer : ℕ) × (attend nfc float world b
          ≡ serve nfc float world timer b')
        × IsRead content key target b.desk.env.device b'.desk
        × Waits b b'
  unfolding attend look_again card_gone is_conso
  attend_next b {c} {b0} {rest} left keys six calm =
      let timer = world.times b.desk.ticks in
      let k1 = record b.desk { ticks = suc b.desk.ticks; strokes = suc b.desk.strokes } in
      let b1 = record b { desk = k1 } in
      let left1 : HasLeft nfc content c b0 rest k1 = record {
        held = left.held;
        blocks = left.blocks;
        named = left.named;
        gone = left.gone;
      } in
      let (gone, same, card, aside) = still_there_gone found k1 left1 in
      let k2 = (still_there nfc k1).1 in
      let b2 = record b { desk = k2 } in
      let holds : Holds k2 (b0 ∷ rest) = ap sector_one (card ∙ sym left.held) ∙ left.blocks in
      let is_conso : test_card (codes "CONSO") k2 ≡ (ok true, k2) =
        test_card_lem (codes "CONSO") k2 holds refl
        ∙ ap (λ n. (ok (same_text (codes "CONSO") n), k2)) left.named in
      let stays : card_gone timer b2 ≡ (ok tt, b2) = rw is_conso refl in
      let (fetched, (c', there, v), aside') =
        fetch_card-CardStands found known four world raw false k2
          (ap (λ c. c.key) aside.config ∙ keys) six in
      let k3 = record (fetch_card nfc world false k2).1 { read = false } in
      let b3 = record b { desk = k3 } in
      let (b', taken, v', w) =
        take_card-CardStands reader float world timer unread_blocks b3
          (c', there, record { card = v.card; memory = v.memory; on_tag = v.on_tag }) refl in
      let (no_key, young) =
        Calm-waits nfc float world b1 b.desk.ticks b.desk.strokes
          (Calm-now world b b.desk.ticks calm) in
      let here : arrive nfc float world timer true b1 ≡ take_card nfc float world timer b3 =
        rw (gone, stays, fetched) refl in
      let starts : attend nfc float world b
          ≡ arrive nfc float world timer (is_held b1.desk.card) b1 =
        rw (no_key, young) refl in
      let contents : content k2.env.device ≡ content b.desk.env.device = fun_ext same in
      (
        b',
        timer,
        starts ∙ ap (λ o. arrive nfc float world timer (is_held o) b1) left.held ∙ here ∙ taken,
        subst
            (λ tag.
              CardStands content key (take 4 target.uid) tag (set unread_blocks 1 (sector_of tag 1))
                b'.desk)
            contents v',
        record {
          config = w.config ∙ aside'.config ∙ aside.config;
          requests = w.requests ∙ aside'.requests ∙ aside.requests;
          conso = w.conso;
        },
      )

  attend_laid :
      (b : BarRun D F)
      → IsFree nfc content b.desk
      → b.desk.config.key ≡ key
      → length key ≡ 6
      → Calm world b
      → (b' : BarRun D F) × (timer : ℕ) × (attend nfc float world b
          ≡ serve nfc float world timer b')
        × IsRead content key target b.desk.env.device b'.desk
        × Waits b b'
  attend_laid b (inl nothing) keys six calm = attend_first b nothing keys six calm
  attend_laid b (inr (c, b0, rest, left)) keys six calm = attend_next b left keys six calm

  -- A whole round in which a card is laid on the reader
  pub round_laid :
      (b : BarRun D F)
      → IsFree nfc content b.desk
      → b.desk.config.key ≡ key
      → length key ≡ 6
      → Calm world b
      → (b' : BarRun D F) × (timer : ℕ) × (bar_round nfc float world b
          ≡ handle (pure Next.again) (serve nfc float world timer b'))
        × IsRead content key target b.desk.env.device b'.desk
        × Waits b b'
  unfolding bar_round
  round_laid b free keys six calm =
      let (done, p) = print-Printed world b.desk in
      let b1 = record b { desk = (print world b.desk).1 } in
      let calm1 : Calm world b1 = elim calm [
        | inl nothing ↦ inl nothing
        | inr kept ↦ inr (record {
          no_key = ap (λ n. is_minus (world.keys n)) p.aside.strokes ∙ kept.no_key;
          young = kept.young;
        })
      ] in
      let (b', timer, served, (c, holds, v), w) =
        attend_laid b1 (IsFree-card b.desk b1.desk p.card free)
          (ap (λ c. c.key) p.aside.config ∙ keys) six calm1 in
      let same : (n : ℕ) → content b1.desk.env.device n ≡ content b.desk.env.device n =
        λ n. ap (λ d. content d n) p.device in
      (
        b',
        timer,
        rw done (ap (handle (pure Next.again)) served),
        (
          c,
          holds,
          record {
            card = v.card;
            memory = v.memory ∙ ap (λ d. set unread_blocks 1 (sector_of (content d) 1)) p.device;
            on_tag = λ n. v.on_tag n ∙ same n;
          },
        ),
        record {
          config = w.config ∙ p.aside.config;
          requests = w.requests ∙ p.aside.requests;
          conso = w.conso;
        },
      )
