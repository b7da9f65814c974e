-- ===== src/Card/Tag/Writing.antt =====
-- `Card::writeMifareClassic` and `Card::writeSector` (src/card.cpp) on a tag that the card's key
-- opens: the tag takes the modified blocks of the sector.
use programme_bee_gadz.Common.{
  ℕ, zero, suc, ◌+◌, ◌*◌, ◌%◌, ◌^◌, ◌<◌, ◌≡◌, refl, ap, ◌∙◌, sym, Bool, true, some, List, [], ◌∷◌,
  arith, ok, pos, length, get_elem?, drop, drop-cons, ◌==◌, if◌then◌else◌,
}
use native.Mathlib.Nat.{add-zero}
use programme_bee_gadz.Block.{Block, State, IsBlock, is_modified}
use programme_bee_gadz.Mifare.{Libnfc}
use programme_bee_gadz.Card.State.{Held}
use programme_bee_gadz.Card.Commands.{authenticate, write_data}
use programme_bee_gadz.Card.Sectors.{
  write_one, write_block, write_blocks, write_mifare_classic, write_sector,
}
use programme_bee_gadz.Card.Data.{write_data_runs}
use programme_bee_gadz.Card.Contents.{blocks_of}
use programme_bee_gadz.Card.Tag.{IsMifare, IsWritable, Stands, classic_place, the_sector_of}
use programme_bee_gadz.Card.Tag.Opening.{authenticate-Stands}
use programme_bee_gadz.Card.Tag.Reading.{first_block_runs}

-- The tag once the block `b` in memory has been stored as block `n`: only a modified one is sent.
abbrev pub stored : ℕ → Block → (ℕ → List ℕ) → ℕ → List ℕ
stored n b tag m = if is_modified b.state then (if m == n then b.data_bytes else tag m) else tag m

-- The tag once blocks `bs` in memory have been stored as blocks `n`, `n + 1`, …
abbrev pub pushed : ℕ → List Block → (ℕ → List ℕ) → ℕ → List ℕ
pushed n [] tag = tag
pushed n (b ∷ bs) tag = pushed (n + 1) bs (stored n b tag)

-- Every modified block of `bs`, stored as block `n`, `n + 1`, …, can be written.
abbrev pub AreWritable : ℕ → List Block → Type 0
AreWritable n [] = Unit
AreWritable n (b ∷ bs) = (b.state ≡ State.modified → IsWritable n) × AreWritable (n + 1) bs

module _ {D : Type 0} {nfc : Libnfc D} {content : D → ℕ → List ℕ} {opened : D → ℕ → Bool}
    {key uid : List ℕ} (reader : IsMifare nfc content opened key uid) (sector place : ℕ)
    (inside : sector < 16) (small : place < 4) {tag : ℕ → List ℕ} {blocks : List (List Block)}
    {xs : List Block} (here : get_elem? blocks sector ≡ some xs) {b : Block}
    (at : get_elem? xs place ≡ some b) where
  write_data-Stands :
      (h : Held D)
      → Stands content key uid tag blocks h
      → opened h.env.device (4 * sector + place) ≡ true
      → b.state ≡ State.modified
      → IsWritable (4 * sector + place)
      → ((write_data nfc (4 * sector + place) h).0 ≡ ok true)
        × Stands content key uid
            (stored (4 * sector + place) b tag)
            blocks
            (write_data nfc (4 * sector + place) h).1
  write_data-Stands h v on changed can =
      let block : ℕ = 4 * sector + place in
      let byte : block % 2 ^ 8 ≡ block = omega arith in
      let (s, there, is, same_blocks) = the_sector_of h sector v inside here in
      let at' : get_elem? s.blocks place ≡ some b = ap (λ l. get_elem? l place) same_blocks ∙ at in
      let whole : IsBlock b = is.whole place b at' in
      let (r, d1, framed, same, still) = reader.framing h.env.device in
      let (n, rx, d2, answered, cells) =
        reader.writes d1 block b.data_bytes (still block ∙ on) can whole in
      let sent : nfc.transceive_bytes (0xa0 ∷ block % 2 ^ 8 ∷ b.data_bytes) d1 ≡ (pos n, rx, d2) =
        rw byte answered in
      let (done, card, device) =
        write_data_runs nfc block h (classic_place v.card sector inside place small) there at' whole
          changed v.card.param framed sent in
      (
        done,
        record {
          card = rw card (record {
            keys = v.card.keys;
            one_key = v.card.one_key;
            uid_is = v.card.uid_is;
            four_bytes = v.card.four_bytes;
            param = whole;
            count = v.card.count;
            classic = v.card.classic;
          });
          memory = ap (λ c. blocks_of c.sectors) card ∙ v.memory;
          on_tag = λ m.
              ap (λ d. content d m) device
              ∙ cells m
              ∙ rw changed (ap (λ c. if m == block then b.data_bytes else c) (same m ∙ v.on_tag m));
        },
      )

  -- The block is stored, if it is modified.
  write_block-Stands :
      (h : Held D)
      → Stands content key uid tag blocks h
      → (b.state ≡ State.modified → IsWritable (4 * sector + place))
      → ((write_block nfc (4 * sector + place) b h).0 ≡ ok tt)
        × Stands content key uid
            (stored (4 * sector + place) b tag)
            blocks
            (write_block nfc (4 * sector + place) b h).1
  unfolding write_block write_one
  write_block-Stands h v can = by_state b.state refl
    where
      by_state :
          (st : State)
          → b.state ≡ st
          → ((write_block nfc (4 * sector + place) b h).0 ≡ ok tt)
            × Stands content key uid
                (stored (4 * sector + place) b tag)
                blocks
                (write_block nfc (4 * sector + place) b h).1
      by_state State.clean e =
          rw e (refl, record { card = v.card; memory = v.memory; on_tag = v.on_tag })
      by_state State.dirty e =
          rw e (refl, record { card = v.card; memory = v.memory; on_tag = v.on_tag })
      by_state State.modified e =
          let (entered, v', on) = authenticate-Stands reader sector place inside small h v in
          let h' = (authenticate nfc (4 * sector + place) h).1 in
          let (done, v'') = write_data-Stands h' v' on e (can e) in
          let v3 = rw e at v'' in rw (e, entered, done) (refl, v3)

module _ {D : Type 0} {nfc : Libnfc D} {content : D → ℕ → List ℕ} {opened : D → ℕ → Bool}
    {key uid : List ℕ} (reader : IsMifare nfc content opened key uid) (sector : ℕ)
    (inside : sector < 16) (blocks : List (List Block)) (xs : List Block)
    (here : get_elem? blocks sector ≡ some xs) where
  write_blocks-Stands :
      (bs : List Block) (count place : ℕ) {tag : ℕ → List ℕ} (h : Held D)
      → length bs ≡ count
      → count + place ≡ 4
      → drop place xs ≡ bs
      → Stands content key uid tag blocks h
      → AreWritable (4 * sector + place) bs
      → ((write_blocks nfc count sector place (4 * sector + place) h).0 ≡ ok tt)
        × Stands content key uid
            (pushed (4 * sector + place) bs tag)
            blocks
            (write_blocks nfc count sector place (4 * sector + place) h).1
  unfolding write_blocks
  write_blocks-Stands [] zero place h long four left v can = (refl, v)
  write_blocks-Stands [] (suc count) place h long four left v can = absurd (omega arith)
  write_blocks-Stands (b ∷ bs) zero place h long four left v can = absurd (omega arith)
  write_blocks-Stands (b ∷ bs) (suc count) place h long four left v can =
      let (at, rest) = drop-cons xs place left in
      let (s, there, is, same_blocks) = the_sector_of h sector v inside here in
      let at' : get_elem? s.blocks place ≡ some b = ap (λ l. get_elem? l place) same_blocks ∙ at in
      let (done, v') =
        write_block-Stands reader sector place inside (omega arith) here at h v can.0 in
      let next : 4 * sector + place + 1 ≡ 4 * sector + suc place = omega arith in
      let can' : AreWritable (4 * sector + suc place) bs = rw next at (can.1) in
      rw (there, at', done, next)
        (write_blocks-Stands bs count (suc place) _ (omega arith) (omega arith) rest v' can')

-- `writeSector` on a tag of 64 blocks that the card's key opens, where no block that a write does not
-- fill is modified in memory: it returns true, the tag takes the bytes of the sector's modified blocks
-- and is otherwise as before, and the card in memory has the blocks that it had.
pub write_sector-Stands :
    {D : Type 0} {nfc : Libnfc D} {content : D → ℕ → List ℕ} {opened : D → ℕ → Bool}
    {key uid : List ℕ} (reader : IsMifare nfc content opened key uid) (sector : ℕ)
    {tag : ℕ → List ℕ} {blocks : List (List Block)} {xs : List Block} (h : Held D)
    → sector < 16
    → get_elem? blocks sector ≡ some xs
    → AreWritable (4 * sector) xs
    → Stands content key uid tag blocks h
    → ((write_sector nfc sector h).0 ≡ ok true)
      × Stands content key uid (pushed (4 * sector) xs tag) blocks (write_sector nfc sector h).1
unfolding write_sector write_mifare_classic
write_sector-Stands {nfc} reader sector {blocks = blocks} {xs = xs} h inside here can v =
    let (s, there, is, same_blocks) = the_sector_of h sector v inside here in
    let four : length xs ≡ 4 = ap length (sym same_blocks) ∙ is.four in
    let start = add-zero (4 * sector) in
    let can' : AreWritable (4 * sector + 0) xs = rw start can in
    let (done, v') =
      write_blocks-Stands reader sector inside blocks xs here xs 4 0 h four refl refl v can' in
    let done' = rw start at done in
    let v'' = rw start at v' in
    rw (first_block_runs sector h v.card inside, there, is.four, done') (refl, v'')
