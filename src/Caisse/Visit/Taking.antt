-- ===== src/Caisse/Visit/Taking.antt =====
-- A round of the loop of `Caisse::run` (src/caisse.cpp) from its start to a card that has been read.
use programme_bee_gadz.Common.{
  ℕ, ◌≡◌, refl, ap, ◌∙◌, Bool, true, false, none, List, Result, ok, handle, ◌>>=◌, pure, codes,
  length, set, take, if◌then◌else◌,
}
use programme_bee_gadz.Block.{Block}
use programme_bee_gadz.Mifare.{Libnfc, Target}
use programme_bee_gadz.Card.Sectors.{read_sector}
use programme_bee_gadz.Card.Tag.{IsMifare}
use programme_bee_gadz.Card.Tag.Reading.{sector_of}
use programme_bee_gadz.Card.Tag.Fresh.{IsFound, unread_blocks}
use programme_bee_gadz.Mode.Members.{FloatUnit, World, Desk, show_info}
use programme_bee_gadz.Mode.Reader.{Next, fetch_card, is_held}
use programme_bee_gadz.Mode.Aside.{show_info-Printed, CardStands-Printed, on_card-Aside}
use programme_bee_gadz.Mode.Laid.{IsRead, is_held-CardStands, fetch_card-CardStands, read_laid}
use programme_bee_gadz.Mode.OnTag.{CardStands}
use programme_bee_gadz.Caisse.{serve, load, take_card, search_card, look_again, caisse_round}

-- What the steps before a card is served leave alone
pub record Waits {D F : Type 0} (k k' : Desk D F) : Type 0 where
  pub config : k'.config ≡ k.config
  pub requests : k'.requests ≡ k.requests
  pub entries : k'.entries ≡ k.entries

module _ {D F : Type 0} (nfc : Libnfc D) (float : FloatUnit F) (world : World F) where
  abbrev taken : Bool → Bool → Desk D F → Result Next × Desk D F
  taken there read =
      if there
      then (do
        loaded ← (if read then pure true else load nfc float world)
        if loaded then serve nfc float world else pure Next.again)
      else pure Next.again

  abbrev arrive : Bool → Desk D F → Result Next × Desk D F
  arrive there = if there then look_again nfc float world else search_card nfc float world

module _ {D F : Type 0} {nfc : Libnfc D} {content : D → ℕ → List ℕ} {opened : D → ℕ → Bool}
    {key uid : List ℕ} (reader : IsMifare nfc content opened key uid) (float : FloatUnit F)
    (world : World F) {tag : ℕ → List ℕ} where
  load-CardStands :
      (blocks : List (List Block)) (k : Desk D F)
      → CardStands content key uid tag blocks k
      → ((load nfc float world k).0 ≡ ok true)
        × CardStands content key uid tag (set blocks 1 (sector_of tag 1)) (load nfc float world k).1
        × Waits k (load nfc float world k).1
  unfolding load
  load-CardStands blocks k v =
      let message = codes "Lecture de la carte en cours, ne pas retirer la carte." in
      let k1 = (show_info message k).1 in
      let v1 = CardStands-Printed k k1 (show_info-Printed message k) v in
      let (done, (c, holds, w)) = read_laid reader blocks k1 v1 in
      let aside = on_card-Aside (read_sector nfc 1) k1 in
      rw done (
        refl,
        (c, holds, record { card = w.card; memory = w.memory; on_tag = w.on_tag }),
        record { config = aside.config; requests = aside.requests; entries = aside.entries },
      )

  take_card-CardStands :
      (blocks : List (List Block)) (k : Desk D F)
      → CardStands content key uid tag blocks k
      → k.read ≡ false
      → (k' : Desk D F) × (take_card nfc float world k ≡ serve nfc float world k')
        × CardStands content key uid tag (set blocks 1 (sector_of tag 1)) k'
        × Waits k k'
  unfolding take_card
  take_card-CardStands blocks k v unread =
      let (done, v', w) = load-CardStands blocks k v in
      let served : taken nfc float world true false k
          ≡ serve nfc float world (load nfc float world k).1 =
        rw done refl in
      (
        (load nfc float world k).1,
        ap (λ there. taken nfc float world there k.read k) (is_held-CardStands k v)
            ∙ ap (λ read. taken nfc float world true read k) unread
            ∙ served,
        v',
        w,
      )

-- A tag of a type that the program knows is laid on the reader, where no card was; the configuration
-- has the tag's key.
pub record IsLaid {D F : Type 0} (key : List ℕ) (target : Target) (world : World F) (k : Desk D F)
    : Type 0 where
  pub known : target.atqa_low ≡ 4
  pub four : length (take 4 target.uid) ≡ 4
  pub raw : length world.raw ≡ 16
  pub nothing : k.card ≡ none
  pub keys : k.config.keys ≡ key
  pub six : length key ≡ 6

module _ {D F : Type 0} {nfc : Libnfc D} {content : D → ℕ → List ℕ} {opened : D → ℕ → Bool}
    {key : List ℕ} {target : Target} (found : IsFound nfc content target)
    (reader : IsMifare nfc content opened key (take 4 target.uid)) (float : FloatUnit F)
    (world : World F) where
  -- A whole round in which a card is laid on the reader
  pub round_laid :
      (k : Desk D F)
      → IsLaid key target world k
      → (k' : Desk D F) × (caisse_round nfc float world k
          ≡ handle (pure Next.again) (serve nfc float world k'))
        × IsRead content key target k.env.device k'
        × Waits k k'
  unfolding caisse_round search_card
  round_laid k laid =
      let k1 = record k { read = false } in
      let (fetched, v, aside) =
        fetch_card-CardStands found laid.known laid.four world laid.raw true k1 laid.keys
          laid.six in
      let k2 = (fetch_card nfc world true k1).1 in
      let (k', served, v', w) =
        take_card-CardStands reader float world unread_blocks k2 v aside.read in
      let here : arrive nfc float world false k ≡ take_card nfc float world k2 = rw fetched refl in
      (
        k',
        ap (λ o. handle (pure Next.again) (arrive nfc float world (is_held o) k)) laid.nothing
            ∙ ap (handle (pure Next.again)) (here ∙ served),
        v',
        record {
          config = w.config ∙ aside.config;
          requests = w.requests ∙ aside.requests;
          entries = w.entries ∙ aside.entries;
        },
      )
