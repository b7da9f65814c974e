-- ===== src/Kve/Visit/Taking.antt =====
-- A round of the loop of `Kve::run` (src/kve.cpp) from its start to a card that has been read.
use programme_bee_gadz.Common.{
  ℕ, suc, ◌⊎◌, ◌≡◌, refl, ap, ◌∙◌, Bool, true, false, none, List, Result, ok, handle, ◌>>=◌, pure,
  codes, length, set, take, if◌then◌else◌, inl, inr,
}
use mathlib.Core.Path.{subst}
use programme_bee_gadz.Block.{Block}
use programme_bee_gadz.Mifare.{Libnfc, Target}
use programme_bee_gadz.Card.Sectors.{read_sector}
use programme_bee_gadz.Card.Tag.{IsMifare}
use programme_bee_gadz.Card.Tag.Reading.{sector_of}
use programme_bee_gadz.Card.Tag.Fresh.{IsFound, unread_blocks}
use programme_bee_gadz.Mode.Members.{FloatUnit, World, show_info}
use programme_bee_gadz.Mode.Reader.{Next, fetch_card, is_held}
use programme_bee_gadz.Mode.Aside.{show_info-Printed, CardStands-Printed, on_card-Aside}
use programme_bee_gadz.Mode.Laid.{IsRead, is_held-CardStands, fetch_card-CardStands, read_laid}
use programme_bee_gadz.Mode.OnTag.{CardStands}
use programme_bee_gadz.Kve.{
  KveRun, is_key, by_key, serve, load, take_card, search_card, look_again, attend, kve_round,
}
use programme_bee_gadz.Kve.Visit.Paying.{by_key-CallsOff}

-- What the steps before a card is served leave alone
pub record Waits {D F : Type 0} (r r' : KveRun D F) : Type 0 where
  pub config : r'.desk.config ≡ r.desk.config
  pub requests : r'.desk.requests ≡ r.desk.requests
  pub entries : r'.desk.entries ≡ r.desk.entries
  pub ticket : r'.ticket ≡ r.ticket

module _ {D F : Type 0} (nfc : Libnfc D) (float : FloatUnit F) (world : World F) where
  abbrev taken : Bool → Bool → KveRun D F → Result Next × KveRun D F
  taken there read =
      if there
      then (do
        loaded ← (if read then pure true else load nfc float world)
        if loaded then serve nfc float world else pure Next.again)
      else pure Next.again

  abbrev pub arrive : Bool → KveRun D F → Result Next × KveRun D F
  arrive there = if there then look_again nfc float world else search_card nfc float world

module _ {D F : Type 0} {nfc : Libnfc D} {content : D → ℕ → List ℕ} {opened : D → ℕ → Bool}
    {key uid : List ℕ} (reader : IsMifare nfc content opened key uid) (float : FloatUnit F)
    (world : World F) {tag : ℕ → List ℕ} where
  load-CardStands :
      (blocks : List (List Block)) (r : KveRun D F)
      → CardStands content key uid tag blocks r.desk
      → ((load nfc float world r).0 ≡ ok true)
        × CardStands content key uid tag
            (set blocks 1 (sector_of tag 1))
            (load nfc float world r).1.desk
        × Waits r (load nfc float world r).1
  unfolding load
  load-CardStands blocks r v =
      let message = codes "Lecture de la carte en cours, ne pas retirer la carte." in
      let k1 = (show_info message r.desk).1 in
      let v1 = CardStands-Printed r.desk k1 (show_info-Printed message r.desk) v in
      let (done, (c, holds, w)) = read_laid reader blocks k1 v1 in
      let aside = on_card-Aside (read_sector nfc 1) k1 in
      rw done (
        refl,
        (c, holds, record { card = w.card; memory = w.memory; on_tag = w.on_tag }),
        record {
          config = aside.config;
          requests = aside.requests;
          entries = aside.entries;
          ticket = refl;
        },
      )

  pub take_card-CardStands :
      (blocks : List (List Block)) (r : KveRun D F)
      → CardStands content key uid tag blocks r.desk
      → r.desk.read ≡ false
      → (r' : KveRun D F) × (take_card nfc float world r ≡ serve nfc float world r')
        × CardStands content key uid tag (set blocks 1 (sector_of tag 1)) r'.desk
        × Waits r r'
  unfolding take_card
  take_card-CardStands blocks r v unread =
      let (done, v', w) = load-CardStands blocks r v in
      let served : taken nfc float world true false r
          ≡ serve nfc float world (load nfc float world r).1 =
        rw done refl in
      (
        (load nfc float world r).1,
        ap (λ there. taken nfc float world there r.desk.read r) (is_held-CardStands r.desk v)
            ∙ ap (λ read. taken nfc float world true read r) unread
            ∙ served,
        v',
        w,
      )

-- A tag of a type that the program knows is laid on the reader, where no card was, and the key `0` is
-- not pressed; the configuration has the tag's key.
pub record IsLaid {D F : Type 0} (key : List ℕ) (target : Target) (world : World F) (r : KveRun D F)
    : Type 0 where
  pub known : target.atqa_low ≡ 4
  pub four : length (take 4 target.uid) ≡ 4
  pub raw : length world.raw ≡ 16
  pub nothing : r.desk.card ≡ none
  pub keys : r.desk.config.key ≡ key
  pub six : length key ≡ 6
  pub no_key : is_key b'0' (world.keys r.desk.strokes) ≡ false

module _ {D F : Type 0} {nfc : Libnfc D} {content : D → ℕ → List ℕ} {opened : D → ℕ → Bool}
    {key : List ℕ} {target : Target} (found : IsFound nfc content target)
    (reader : IsMifare nfc content opened key (take 4 target.uid)) (float : FloatUnit F)
    (world : World F) where
  -- A whole round in which a card is laid on the reader
  pub round_laid :
      (r : KveRun D F)
      → IsLaid key target world r
      → (r' : KveRun D F) × (kve_round nfc float world r
          ≡ handle (pure Next.again) (serve nfc float world r'))
        × IsRead content key target r.desk.env.device r'.desk
        × (r'.desk.config ≡ r.desk.config)
        × (r'.desk.requests ≡ r.desk.requests)
        × (r'.desk.entries ≡ r.desk.entries)
        × ((r'.ticket ≡ r.ticket) ⊎ (r'.ticket ≡ false))
  unfolding kve_round attend search_card
  round_laid r laid =
      let timer = world.times r.desk.ticks in
      let r1 = record r {
        desk = record r.desk { ticks = suc r.desk.ticks; strokes = suc r.desk.strokes };
      } in
      let (keyed, off) = by_key-CallsOff timer (world.keys r.desk.strokes) r1 laid.no_key in
      let r2 = (by_key timer (world.keys r.desk.strokes) r1).1 in
      let k3 = record r2.desk { read = false } in
      let (fetched, v, aside) =
        fetch_card-CardStands found laid.known laid.four world laid.raw false k3
          (ap (λ c. c.key) off.printed.aside.config ∙ laid.keys) laid.six in
      let r4 = record r2 { desk = (fetch_card nfc world false k3).1 } in
      let (r', served, v', w) =
        take_card-CardStands reader float world unread_blocks r4 v aside.read in
      let here : arrive nfc float world false r2 ≡ take_card nfc float world r4 = rw fetched refl in
      let starts : attend nfc float world r ≡ arrive nfc float world (is_held r2.desk.card) r2 =
        rw keyed refl in
      (
        r',
        ap (handle (pure Next.again)) (
            starts
            ∙ ap (λ o. arrive nfc float world (is_held o) r2) (off.printed.card ∙ laid.nothing)
            ∙ here
            ∙ served),
        subst (λ d. IsRead content key target d r'.desk) off.printed.device v',
        w.config ∙ aside.config ∙ off.printed.aside.config,
        w.requests ∙ aside.requests ∙ off.printed.aside.requests,
        w.entries ∙ aside.entries ∙ off.printed.aside.entries,
        elim off.ticket [ inl same ↦ inl (w.ticket ∙ same) | inr gone ↦ inr (w.ticket ∙ gone) ],
      )
