-- ===== src/Mode/Laid.antt =====
-- A card that is laid on the reader (src/mode.cpp and the `run` of each mode): it is found and read.
use programme_bee_gadz.Common.{
  ℕ, ◌≡◌, refl, ap, ◌∙◌, Bool, true, false, none, some, List, [], ◌∷◌, arith, ok, threw, fault,
  Result, handle, continue, pure, Action, codes, length, get_elem?, set, take, inl, inr, ℤ,
  is_positive, ◌⊎◌,
}
use programme_bee_gadz.Block.{IsBlock, Block, memory}
use programme_bee_gadz.Mifare.{Libnfc, Target}
use programme_bee_gadz.Card.State.{Card, Held, classic_card, uid_of}
use programme_bee_gadz.Card.Sectors.{read_sector}
use programme_bee_gadz.Card.Tag.Fetching.{clean_block}
use programme_bee_gadz.Card.Tag.{the_sector_of, IsMifare}
use programme_bee_gadz.Card.Tag.Reading.{sector_of, read_sector-Stands}
use programme_bee_gadz.Card.Tag.Fresh.{
  IsFound, unread_blocks, infinite_select_lem, find_card-Stands,
}
use programme_bee_gadz.Config.{get_keys}
use programme_bee_gadz.NfcDevice.{infinite_select, find_card_uid}
use programme_bee_gadz.Mode.Memory.{Holds, sector_one}
use programme_bee_gadz.Mode.{c_string}
use programme_bee_gadz.Mode.Members.{World, Desk, with_card, on_card}
use programme_bee_gadz.Mode.Reader.{Next, fetch_card, is_held, still_there}
use programme_bee_gadz.Mode.OnTag.{CardStands, on_card-Stands}
use programme_bee_gadz.Mode.Aside.{around, Aside}

-- The mode holds a card for the tag on the reader `d`, and sector 1 has been read.
abbrev pub IsRead : {D F : Type 0} → (D → ℕ → List ℕ) → List ℕ → Target → D → Desk D F → Type 0
IsRead content key target d k =
    CardStands content key (take 4 target.uid) (content d)
      (set unread_blocks 1 (sector_of (content d) 1)) k

module _ {D F : Type 0} where
  pub is_held-CardStands :
      (k : Desk D F) {content : D → ℕ → List ℕ} {key uid : List ℕ} {tag : ℕ → List ℕ}
      {blocks : List (List Block)}
      → CardStands content key uid tag blocks k
      → is_held k.card ≡ true
  is_held-CardStands k (c, holds, v) = ap is_held holds

module _ {D F : Type 0} {nfc : Libnfc D} {content : D → ℕ → List ℕ} {target : Target}
    (reader : IsFound nfc content target) (known : target.atqa_low ≡ 4)
    (four : length (take 4 target.uid) ≡ 4) (world : World F) (raw : length world.raw ≡ 16) where
  -- The mode holds a card for the tag, which has not been read.
  pub fetch_card-CardStands :
      (is_caisse : Bool) {key : List ℕ} (k : Desk D F)
      → get_keys is_caisse k.config ≡ key
      → length key ≡ 6
      → ((fetch_card nfc world is_caisse k).0 ≡ ok tt)
        × CardStands content key
            (take 4 target.uid)
            (content k.env.device)
            unread_blocks
            (fetch_card nfc world is_caisse k).1
        × Aside k (fetch_card nfc world is_caisse k).1
  unfolding fetch_card
  fetch_card-CardStands is_caisse {key} k keys six =
      let (done, v) = find_card-Stands reader key world.raw k.env known six four raw in
      rw (keys, done) (refl, (classic_card key target [] world.raw, refl, v), around)

-- A tag of a type that the program knows is laid on the reader, where no card was; the configuration
-- has the tag's key.
pub record IsSeen {D F : Type 0} (key : List ℕ) (target : Target) (world : World F)
    (is_caisse : Bool) (k : Desk D F) : Type 0 where
  pub known : target.atqa_low ≡ 4
  pub four : length (take 4 target.uid) ≡ 4
  pub raw : length world.raw ≡ 16
  pub nothing : k.card ≡ none
  pub keys : get_keys is_caisse k.config ≡ key
  pub six : length key ≡ 6

-- The mode holds a CONSO card that is not on the reader any more.
pub record HasLeft {D F : Type 0} (nfc : Libnfc D) (content : D → ℕ → List ℕ) (c : Card)
    (b0 : Block) (rest : List Block) (k : Desk D F) : Type 0 where
  pub held : k.card ≡ some c
  pub blocks : Holds k (b0 ∷ rest)
  pub named : c_string (memory b0) ≡ codes "CONSO"
  pub gone :
      (d : D)
      → (r : ℤ) × (t : Target) × (d' : D) × (nfc.select_passive_target (uid_of c) d ≡ (r, t, d'))
        × (is_positive r ≡ false)
        × ((n : ℕ) → content d' n ≡ content d n)

-- The mode holds no card, or a CONSO card that is not on the reader any more.
abbrev pub IsFree : {D F : Type 0} → Libnfc D → (D → ℕ → List ℕ) → Desk D F → Type 0
IsFree nfc content k =
    (k.card ≡ none)
    ⊎ ((c : Card) × (b0 : Block) × (rest : List Block) × HasLeft nfc content c b0 rest k)

pub IsFree-card :
    {D F : Type 0} {nfc : Libnfc D} {content : D → ℕ → List ℕ} (k k' : Desk D F)
    → k'.card ≡ k.card
    → IsFree nfc content k
    → IsFree nfc content k'
IsFree-card k k' same (inl nothing) = inl (same ∙ nothing)
IsFree-card k k' same (inr (c, b0, rest, left)) = inr (
  c,
  b0,
  rest,
  record {
    held = same ∙ left.held;
    blocks = ap sector_one same ∙ left.blocks;
    named = left.named;
    gone = left.gone;
  },
)

module _ {D F : Type 0} {nfc : Libnfc D} {content : D → ℕ → List ℕ} {target : Target}
    (reader : IsFound nfc content target) {c : Card} {b0 : Block} {rest : List Block} where
  pub still_there_gone :
      (k : Desk D F)
      → HasLeft nfc content c b0 rest k
      → ((still_there nfc k).0 ≡ ok false)
        × ((n : ℕ) → content (still_there nfc k).1.env.device n ≡ content k.env.device n)
        × ((still_there nfc k).1.card ≡ some c)
        × Aside k (still_there nfc k).1
  unfolding still_there find_card_uid
  still_there_gone k left =
      let (b, moded, same) = infinite_select_lem reader k.env in
      let (r, t, d, answered, none_there, same') =
        left.gone (infinite_select nfc false k.env).1.device in
      let look : Action (Held D) Bool = λ h.
        (let (r, e) = find_card_uid nfc h.card.target.uid h.card.uid_length h.env in
          (r, record h { env = e })) in
      let there : still_there nfc k ≡ with_card (some c) look k =
        ap (λ o. with_card o look k) left.held in
      rw (there, moded, answered, none_there) (refl, λ n. same' n ∙ same n, refl, around)

-- Sector 1 of the card is read: it has the tag's blocks.
pub read_laid :
    {D F : Type 0} {nfc : Libnfc D} {content : D → ℕ → List ℕ} {opened : D → ℕ → Bool}
    {key uid : List ℕ} (reader : IsMifare nfc content opened key uid) {tag : ℕ → List ℕ}
    (blocks : List (List Block)) (k : Desk D F)
    → CardStands content key uid tag blocks k
    → ((on_card (read_sector nfc 1) k).0 ≡ ok true)
      × CardStands content key uid tag
          (set blocks 1 (sector_of tag 1))
          (on_card (read_sector nfc 1) k).1
read_laid {nfc = nfc} reader blocks k v =
    on_card-Stands (read_sector nfc 1) true k (λ h w. read_sector-Stands reader 1 h (omega arith) w)
      v

-- The credit's block is whole in the memory of the card that the mode holds.
pub credit-IsBlock :
    {D F : Type 0} {content : D → ℕ → List ℕ} {key uid : List ℕ} {tag : ℕ → List ℕ} (k : Desk D F)
    → CardStands content key uid tag (set unread_blocks 1 (sector_of tag 1)) k
    → IsBlock (clean_block (tag 5))
credit-IsBlock {tag = tag} k (c, holds, v) =
    let (s, there, is, same) = the_sector_of _ 1 v (omega arith) refl in
    is.whole 1 (clean_block (tag 5)) (ap (λ l. get_elem? l 1) same)

-- The end of a round whose last call returns or throws
pub ended :
    {S : Type 0} (r : Result (Unit {0}) × S)
    → (r.0 ≡ ok tt) ⊎ (r.0 ≡ threw)
    → handle (pure Next.again) (continue (λ u. pure Next.again) r) ≡ (ok Next.again, r.1)
ended (ok u, s) e = refl
ended (threw, s) e = refl
ended (fault, s) (inl e) = cc
ended (fault, s) (inr e) = cc
