-- ===== src/Mode/OnTag.antt =====
-- The card that a mode holds, beside the tag that the reader has (src/mode.cpp): a change of sector 1
-- in memory, and `Mode::writeCard`, which takes it to the tag.
pub mod Changing
use programme_bee_gadz.Common.{
  ℕ, ◌≡◌, refl, ap, ◌∙◌, Bool, some, List, arith, Action, ok, codes, get_elem?, set, length-set,
}
use programme_bee_gadz.Block.{Block, IsBlock}
use programme_bee_gadz.Mifare.{Libnfc}
use programme_bee_gadz.Card.State.{Card, Held}
use programme_bee_gadz.Card.Sectors.{write_sector}
use programme_bee_gadz.Card.Tag.{
  IsMifare, Stands, the_sector_of, put_sector-IsClassic, blocks_of-set_any,
}
use programme_bee_gadz.Card.Tag.Fetching.{put_block-IsClassic}
use programme_bee_gadz.Card.Tag.Writing.{pushed, AreWritable, write_sector-Stands}
use programme_bee_gadz.Mode.{change_block, write_card}
use programme_bee_gadz.Mode.Memory.{Holds}
use programme_bee_gadz.Mode.Members.{Desk, on_card, show_info}

-- The mode holds a card that stands beside the tag.
abbrev pub CardStands :
    {D F : Type 0}
    → (D → ℕ → List ℕ)
    → List ℕ
    → List ℕ
    → (ℕ → List ℕ)
    → List (List Block)
    → Desk D F
    → Type 0
CardStands content key uid tag blocks k =
    (c : Card) × (k.card ≡ some c)
    × Stands content key uid tag blocks (record { card = c; env = k.env })

module _ {D : Type 0} {content : D → ℕ → List ℕ} {key uid : List ℕ} {tag : ℕ → List ℕ} where
  -- A block of sector 1 is changed in memory, and the tag is as it was.
  pub change_block-Stands :
      (i : ℕ) (f : Block → Block) (blocks : List (List Block)) {xs : List Block} {b : Block}
      (h : Held D)
      → Stands content key uid tag blocks h
      → get_elem? blocks 1 ≡ some xs
      → get_elem? xs i ≡ some b
      → IsBlock (f b)
      → ((change_block i f h).0 ≡ ok tt)
        × Stands content key uid tag (set blocks 1 (set xs i (f b))) (change_block i f h).1
  change_block-Stands i f blocks {xs} {b} h v here at whole =
      let (s, there, is, same) = the_sector_of h 1 v (omega arith) here in
      let at' : get_elem? s.blocks i ≡ some b = ap (λ l. get_elem? l i) same ∙ at in
      let s' = record s { blocks = set s.blocks i (f b) } in
      rw (there, at', there)
        (
          refl,
          record {
            card = record {
              keys = v.card.keys;
              one_key = v.card.one_key;
              uid_is = v.card.uid_is;
              four_bytes = v.card.four_bytes;
              param = v.card.param;
              count = length-set h.card.sectors 1 s' ∙ v.card.count;
              classic =
                  put_sector-IsClassic h.card.sectors 1 s' v.card.classic
                    (put_block-IsClassic s i (f b) is whole);
            };
            memory = blocks_of-set_any h.card.sectors 1 s' ∙ rw (v.memory, same) refl;
            on_tag = v.on_tag;
          },
        )

module _ {D F : Type 0} {content : D → ℕ → List ℕ} {key uid : List ℕ} where
  -- What a call on the card does to it is what it does to the card that the mode holds.
  pub on_card-Stands :
      {A : Type 0} (m : Action (Held D) A) (a : A) (k : Desk D F) {tag tag' : ℕ → List ℕ}
      {blocks blocks' : List (List Block)}
      → ((h : Held D)
          → Stands content key uid tag blocks h
          → ((m h).0 ≡ ok a) × Stands content key uid tag' blocks' (m h).1)
      → CardStands content key uid tag blocks k
      → ((on_card m k).0 ≡ ok a) × CardStands content key uid tag' blocks' (on_card m k).1
  on_card-Stands m a k runs (c, holds, v) =
      let (done, v') = runs (record { card = c; env = k.env }) v in
      let c' = (m (record { card = c; env = k.env })).1.card in rw holds (done, (c', refl, v'))

-- `writeCard` takes the modified blocks of sector 1 to the tag.
pub write_card-Stands :
    {D F : Type 0} {nfc : Libnfc D} {content : D → ℕ → List ℕ} {opened : D → ℕ → Bool}
    {key uid : List ℕ} (reader : IsMifare nfc content opened key uid) {tag : ℕ → List ℕ}
    {blocks : List (List Block)} {xs : List Block} (k : Desk D F)
    → get_elem? blocks 1 ≡ some xs
    → AreWritable 4 xs
    → CardStands content key uid tag blocks k
    → ((write_card nfc k).0 ≡ ok tt)
      × CardStands content key uid (pushed 4 xs tag) blocks (write_card nfc k).1
unfolding write_card
write_card-Stands {nfc = nfc} reader {tag} {blocks} {xs} k here can (c, holds, v) =
    let h : Held _ = record {
      card = c;
      env = (show_info (codes "NE PAS ENLEVER LA CARTE, ECRITURE EN COURS") k).1.env;
    } in
    let (done, v') =
      write_sector-Stands reader 1 {tag = tag} {blocks = blocks} {xs = xs} h (omega arith) here can
        (record { card = v.card; memory = v.memory; on_tag = v.on_tag }) in
    rw (holds, done)
      (
        refl,
        (
          (write_sector nfc 1 h).1.card,
          refl,
          record { card = v'.card; memory = v'.memory; on_tag = v'.on_tag },
        ),
      )

-- The blocks of sector 1 in the memory of the card that the mode holds
pub CardStands-Holds :
    {D F : Type 0} {content : D → ℕ → List ℕ} {key uid : List ℕ} {tag : ℕ → List ℕ}
    {xs : List Block} (k : Desk D F) (blocks : List (List Block))
    → get_elem? blocks 1 ≡ some xs
    → CardStands content key uid tag blocks k
    → Holds k xs
CardStands-Holds k blocks here (c, holds, v) = rw holds (ap (λ l. get_elem? l 1) v.memory ∙ here)
