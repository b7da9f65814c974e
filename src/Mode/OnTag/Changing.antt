-- ===== src/Mode/OnTag/Changing.antt =====
-- Changes of several blocks of sector 1 of the card that stands beside its tag (src/mode.cpp), one after
-- the other, and the next time that the card is read.
use programme_bee_gadz.Common.{
  ℕ, ◌≡◌, Bool, true, some, List, arith, Action, ok, ◌>>◌, get_elem?, set, set-set,
  get_elem?-set_self, bind_ok,
}
use programme_bee_gadz.Block.{Block, IsBlock}
use programme_bee_gadz.Mifare.{Libnfc}
use programme_bee_gadz.Card.State.{Held}
use programme_bee_gadz.Card.Sectors.{read_sector}
use programme_bee_gadz.Card.Tag.{IsMifare, Stands, Stands-length}
use programme_bee_gadz.Card.Tag.Reading.{sector_of, read_sector-Stands}
use programme_bee_gadz.Card.Tag.Writing.{pushed, AreWritable}
use programme_bee_gadz.Mode.{change_block, write_card}
use programme_bee_gadz.Mode.Memory.{Holds}
use programme_bee_gadz.Mode.Members.{Desk, on_card}
use programme_bee_gadz.Mode.OnTag.{
  CardStands, change_block-Stands, on_card-Stands, write_card-Stands, CardStands-Holds,
}

module _ {D : Type 0} (content : D → ℕ → List ℕ) (key uid : List ℕ) (tag : ℕ → List ℕ) where
  -- The call returns, takes blocks `xs` of sector 1 to blocks `ys` in memory, and leaves the tag alone.
  abbrev pub Changes : Action (Held D) (Unit {0}) → List Block → List Block → Type 0
  Changes m xs ys =
      (blocks : List (List Block)) (h : Held D)
      → Stands content key uid tag blocks h
      → get_elem? blocks 1 ≡ some xs
      → ((m h).0 ≡ ok tt) × Stands content key uid tag (set blocks 1 ys) (m h).1

  pub change_block-Changes :
      (i : ℕ) (f : Block → Block) (xs : List Block) {b : Block}
      → get_elem? xs i ≡ some b
      → IsBlock (f b)
      → Changes (change_block i f) xs (set xs i (f b))
  change_block-Changes i f xs at whole blocks h v here =
      change_block-Stands i f blocks h v here at whole

  pub then_Changes :
      (m n : Action (Held D) (Unit {0})) {xs ys zs : List Block}
      → Changes m xs ys
      → Changes n ys zs
      → Changes (m >> n) xs zs
  then_Changes m n {xs} {ys} {zs} first next blocks h v here =
      let (done, v') = first blocks h v here in
      let sixteen = Stands-length v in
      let there = get_elem?-set_self blocks 1 ys (omega arith) in
      let (done', v'') = next (set blocks 1 ys) (m h).1 v' there in
      rw (bind_ok m (λ u. n) h done) (done', rw (set-set blocks 1 ys zs) at v'')

-- A change of sector 1 in memory, and then `writeCard`: the tag takes the modified blocks.
pub changed_on_tag :
    {D F : Type 0} {nfc : Libnfc D} {content : D → ℕ → List ℕ} {opened : D → ℕ → Bool}
    {key uid : List ℕ} (reader : IsMifare nfc content opened key uid) {tag : ℕ → List ℕ}
    {blocks : List (List Block)} {xs ys : List Block} (m : Action (Held D) (Unit {0}))
    (k : Desk D F)
    → Changes content key uid tag m xs ys
    → get_elem? blocks 1 ≡ some xs
    → AreWritable 4 ys
    → CardStands content key uid tag blocks k
    → (((on_card m >> write_card nfc) k).0 ≡ ok tt)
      × CardStands content key uid
          (pushed 4 ys tag)
          (set blocks 1 ys)
          ((on_card m >> write_card nfc) k).1
changed_on_tag {nfc = nfc} reader {tag} {blocks} {xs} {ys} m k changes here can v =
    let (c, holds, stands) = v in
    let sixteen = Stands-length stands in
    let (done, v') = on_card-Stands m tt k (λ h w. changes blocks h w here) v in
    let there = get_elem?-set_self blocks 1 ys (omega arith) in
    rw (bind_ok (on_card m) (λ u. write_card nfc) k done)
      (write_card-Stands reader (on_card m k).1 there can v')

-- Sector 1 of a card is read, whatever its memory held: it has the tag's blocks.
pub read_again :
    {D F : Type 0} {nfc : Libnfc D} {content : D → ℕ → List ℕ} {opened : D → ℕ → Bool}
    {key uid : List ℕ} (reader : IsMifare nfc content opened key uid) {tag : ℕ → List ℕ}
    (later : Desk D F) (old : List (List Block))
    → CardStands content key uid tag old later
    → ((on_card (read_sector nfc 1) later).0 ≡ ok true)
      × Holds (on_card (read_sector nfc 1) later).1 (sector_of tag 1)
read_again {nfc = nfc} reader {tag} later old v =
    let (c, holds, stands) = v in
    let sixteen = Stands-length stands in
    let (read, again) =
      on_card-Stands (read_sector nfc 1) true later
        (λ h w. read_sector-Stands reader 1 h (omega arith) w) v in
    let at = get_elem?-set_self old 1 (sector_of tag 1) (omega arith) in
    (read, CardStands-Holds (on_card (read_sector nfc 1) later).1 _ at again)
