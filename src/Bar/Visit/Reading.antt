-- ===== src/Bar/Visit/Reading.antt =====
-- A round of the loop of `Bar::run` (src/bar.cpp) from the search for a card to a card that has been read.
use programme_bee_gadz.Common.{
  ℕ, ◌+◌, ◌<◌, ◌≡◌, refl, ap, ◌∙◌, Bool, true, false, not, Option, none, List, Result, ok, ◌>>=◌,
  ◌>>◌, pure, codes, length, set, take, leb_lt, if◌then◌else◌, Bool-cases, inl, inr,
}
use programme_bee_gadz.Block.{Block}
use programme_bee_gadz.Mifare.{Libnfc, Target}
use programme_bee_gadz.Card.Sectors.{read_sector}
use programme_bee_gadz.Card.Tag.{IsMifare}
use programme_bee_gadz.Card.Tag.Reading.{sector_of}
use programme_bee_gadz.Card.Tag.Fresh.{IsFound, unread_blocks}
use programme_bee_gadz.Mode.{set_command}
use programme_bee_gadz.Mode.Members.{FloatUnit, World}
use programme_bee_gadz.Mode.Reader.{Next, set_read, is_held, fetch_card}
use programme_bee_gadz.Mode.OnTag.{CardStands}
use programme_bee_gadz.Mode.Aside.{on_card-Aside}
use programme_bee_gadz.Mode.Laid.{IsRead, is_held-CardStands, fetch_card-CardStands, read_laid}
use programme_bee_gadz.Bar.{BarRun, on_desk, is_empty}
use programme_bee_gadz.Bar.Round.{
  is_minus, by_key, by_time, serve, load, take_card, look_again, say, display,
}

-- What the steps before a card is served leave alone
pub record Waits {D F : Type 0} (b b' : BarRun D F) : Type 0 where
  pub config : b'.desk.config ≡ b.desk.config
  pub requests : b'.desk.requests ≡ b.desk.requests
  pub conso : b'.conso ≡ b.conso

module _ {D F : Type 0} (nfc : Libnfc D) (float : FloatUnit F) (world : World F) (timer : ℕ) where
  abbrev pub taken : Bool → Bool → BarRun D F → Result Next × BarRun D F
  taken there read =
      if there
      then (do
        loaded ← (if read then pure true else load nfc float world timer)
        if loaded then serve nfc float world timer else pure Next.again)
      else pure Next.again

  -- The rest of a round, where a card is in hand or not
  abbrev pub arrive : Bool → BarRun D F → Result Next × BarRun D F
  arrive there = if there then look_again nfc float world timer else (do
    on_desk (set_read false)
    on_desk (fetch_card nfc world false)
    take_card nfc float world timer)

  pub by_key_waits :
      (key : Option ℕ) (b : BarRun D F) → is_minus key ≡ false → by_key timer key b ≡ (ok tt, b)
  unfolding by_key
  by_key_waits key b other = rw other refl

  pub by_key_empty :
      (key : Option ℕ) (b : BarRun D F) → is_empty b.conso ≡ true → by_key timer key b ≡ (ok tt, b)
  unfolding by_key
  by_key_empty key b nothing = elim (Bool-cases (is_minus key)) [
    | inl e ↦ rw (e, nothing) refl
    | inr e ↦ rw e refl
  ]

  pub by_time_empty : (b : BarRun D F) → is_empty b.conso ≡ true → by_time timer b ≡ (ok tt, b)
  unfolding by_time
  by_time_empty b nothing = rw nothing refl

  pub by_time_waits : (b : BarRun D F) → timer < b.time + 10 → by_time timer b ≡ (ok tt, b)
  unfolding by_time
  by_time_waits b young = elim (Bool-cases (not (is_empty b.conso))) [
    | inl e ↦ rw (e, leb_lt (b.time + 10) timer young) refl
    | inr e ↦ rw e refl
  ]

module _ {D F : Type 0} {nfc : Libnfc D} {content : D → ℕ → List ℕ} {opened : D → ℕ → Bool}
    {key uid : List ℕ} (reader : IsMifare nfc content opened key uid) (float : FloatUnit F)
    (world : World F) {tag : ℕ → List ℕ} (timer : ℕ) where
  load-CardStands :
      (blocks : List (List Block)) (b : BarRun D F)
      → CardStands content key uid tag blocks b.desk
      → ((load nfc float world timer b).0 ≡ ok true)
        × CardStands content key uid tag
            (set blocks 1 (sector_of tag 1))
            (load nfc float world timer b).1.desk
        × Waits b (load nfc float world timer b).1
  unfolding load set_command
  load-CardStands blocks b (c, holds, v) =
      let b1 = (say (codes "Lecture de la carte en cours, ne pas retirer la carte.") b).1 in
      let b2 = (display (codes "LECTURE EN COURS") 2 0 b1).1 in
      let (done, (c', holds', w)) =
        read_laid reader blocks b2.desk
          (c, holds, record { card = v.card; memory = v.memory; on_tag = v.on_tag }) in
      let aside = on_card-Aside (read_sector nfc 1) b2.desk in
      rw done (
        refl,
        (c', holds', record { card = w.card; memory = w.memory; on_tag = w.on_tag }),
        record { config = aside.config; requests = aside.requests; conso = refl },
      )

  pub take_card-CardStands :
      (blocks : List (List Block)) (b : BarRun D F)
      → CardStands content key uid tag blocks b.desk
      → b.desk.read ≡ false
      → (b' : BarRun D F) × (take_card nfc float world timer b ≡ serve nfc float world timer b')
        × CardStands content key uid tag (set blocks 1 (sector_of tag 1)) b'.desk
        × Waits b b'
  unfolding take_card
  take_card-CardStands blocks b v unread =
      let (done, v', w) = load-CardStands blocks b v in
      let served : taken nfc float world timer true false b
          ≡ serve nfc float world timer (load nfc float world timer b).1 =
        rw done refl in
      (
        (load nfc float world timer b).1,
        ap (λ there. taken nfc float world timer there b.desk.read b) (is_held-CardStands b.desk v)
            ∙ ap (λ read. taken nfc float world timer true read b) unread
            ∙ served,
        v',
        w,
      )

module _ {D F : Type 0} {nfc : Libnfc D} {content : D → ℕ → List ℕ} {opened : D → ℕ → Bool}
    {key : List ℕ} {target : Target} (found : IsFound nfc content target)
    (known : target.atqa_low ≡ 4) (four : length (take 4 target.uid) ≡ 4)
    (reader : IsMifare nfc content opened key (take 4 target.uid)) (float : FloatUnit F)
    (world : World F) (raw : length world.raw ≡ 16) where
  -- A card is laid on the reader where there was none.
  pub arrive_first :
      (timer : ℕ) (b : BarRun D F)
      → b.desk.card ≡ none
      → b.desk.config.key ≡ key
      → length key ≡ 6
      → (b' : BarRun D F) × (arrive nfc float world timer (is_held b.desk.card) b
          ≡ serve nfc float world timer b')
        × IsRead content key target b.desk.env.device b'.desk
        × Waits b b'
  arrive_first timer b nothing keys six =
      let b2 = record b { desk = record b.desk { read = false } } in
      let (fetched, v, aside) =
        fetch_card-CardStands found known four world raw false b2.desk keys six in
      let b3 = record b2 { desk = (fetch_card nfc world false b2.desk).1 } in
      let (b', taken, v', w) =
        take_card-CardStands reader float world timer unread_blocks b3 v aside.read in
      let here : arrive nfc float world timer false b ≡ take_card nfc float world timer b3 =
        rw fetched refl in
      (
        b',
        ap (λ o. arrive nfc float world timer (is_held o) b) nothing ∙ here ∙ taken,
        v',
        record {
          config = w.config ∙ aside.config;
          requests = w.requests ∙ aside.requests;
          conso = w.conso;
        },
      )
