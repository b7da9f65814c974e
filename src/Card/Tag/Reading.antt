-- ===== src/Card/Tag/Reading.antt =====
-- `Card::readMifareClassic` and `Card::readSector` (src/card.cpp) on a tag that the card's key opens:
-- the sector in memory becomes the tag's.
use programme_bee_gadz.Common.{
  ℕ, zero, suc, ◌+◌, ◌-◌, ◌*◌, ◌%◌, ◌^◌, ◌<◌, ◌≡◌, refl, ap, ◌∙◌, sym, Bool, true, false, some,
  List, [], ◌∷◌, arith, ok, length, get_elem?, set, set-set, set_same, get_elem?-set_self,
}
use native.Mathlib.Nat.{add-zero}
use programme_bee_gadz.Block.{Block}
use programme_bee_gadz.Mifare.{Libnfc}
use programme_bee_gadz.Card.State.{Held}
use programme_bee_gadz.Card.Sectors.{
  first_block, show_blocks, show_sector, read_blocks, read_mifare_classic, read_sector,
}
use programme_bee_gadz.Card.Contents.{blocks_of}
use programme_bee_gadz.Card.Tag.{
  IsMifare, IsClassicCard, Stands, the_sector-IsClassic, classic_last, Stands-length,
  get_elem?-blocks_of,
}
use programme_bee_gadz.Card.Tag.Fetching.{clean_block, read_block-Stands}

-- The blocks of sector `k` of the tag
abbrev pub sector_of : (ℕ → List ℕ) → ℕ → List Block
sector_of tag k =
    clean_block (tag (4 * k))
    ∷ clean_block (tag (4 * k + 1))
    ∷ clean_block (tag (4 * k + 2))
    ∷ clean_block (tag (4 * k + 3))
    ∷ []

-- The blocks of sector `k` in memory once `count` of them have been read, from `place` on.
fetched : (ℕ → List ℕ) → ℕ → ℕ → ℕ → List Block → List Block
fetched tag k zero place xs = xs
fetched tag k (suc count) place xs =
    fetched tag k count (suc place) (set xs place (clean_block (tag (4 * k + place))))

fetched_all :
    (tag : ℕ → List ℕ) (k : ℕ) (xs : List Block)
    → length xs ≡ 4
    → fetched tag k 4 0 xs ≡ sector_of tag k
unfolding fetched
fetched_all tag k (a ∷ b ∷ c ∷ d ∷ []) e =
    ap
      (λ n.
        clean_block (tag n)
        ∷ clean_block (tag (4 * k + 1))
        ∷ clean_block (tag (4 * k + 2))
        ∷ clean_block (tag (4 * k + 3))
        ∷ [])
      (add-zero (4 * k))
fetched_all tag k [] e = absurd (omega arith)
fetched_all tag k (a ∷ []) e = absurd (omega arith)
fetched_all tag k (a ∷ b ∷ []) e = absurd (omega arith)
fetched_all tag k (a ∷ b ∷ c ∷ []) e = absurd (omega arith)
fetched_all tag k (a ∷ b ∷ c ∷ d ∷ x ∷ rest) e = absurd (omega arith)

-- `calculateBlock(sector) - m_data[sector].size() + 1`
pub first_block_runs :
    {D : Type 0} {key uid : List ℕ} (sector : ℕ) (h : Held D)
    → IsClassicCard key uid h.card
    → sector < 16
    → first_block sector h ≡ (ok (4 * sector), h)
unfolding first_block
first_block_runs sector h v inside =
    let (s, there, is) = the_sector-IsClassic v sector inside in
    let number : (4 * sector + 3 + 2 ^ 64 - 4 + 1) % 2 ^ 64 ≡ 4 * sector = omega arith in
    rw (classic_last v sector inside, there, is.four, number) refl

show_blocks_lem :
    {D : Type 0} (i : ℕ) (bs : List Block) (h : Held D)
    → ((show_blocks i bs h).0 ≡ ok tt)
      × ((show_blocks i bs h).1.card ≡ h.card)
      × ((show_blocks i bs h).1.env.device ≡ h.env.device)
unfolding show_blocks
show_blocks_lem i [] h = (refl, refl, refl)
show_blocks_lem i (b ∷ bs) h = show_blocks_lem (suc i) bs _

module _ {D : Type 0} {nfc : Libnfc D} {content : D → ℕ → List ℕ} {opened : D → ℕ → Bool}
    {key uid : List ℕ} (reader : IsMifare nfc content opened key uid) (sector : ℕ)
    (inside : sector < 16) {tag : ℕ → List ℕ} (blocks : List (List Block))
    (sixteen : length blocks ≡ 16) where
  read_blocks-Stands :
      (count place : ℕ) (xs : List Block) (h : Held D)
      → count + place ≡ 4
      → Stands content key uid tag (set blocks sector xs) h
      → ((read_blocks nfc count (4 * sector + place) h).0 ≡ ok tt)
        × Stands content key uid tag
            (set blocks sector (fetched tag sector count place xs))
            (read_blocks nfc count (4 * sector + place) h).1
  unfolding read_blocks fetched
  read_blocks-Stands zero place xs h four v = (refl, v)
  read_blocks-Stands (suc count) place xs h four v =
      let here : get_elem? (set blocks sector xs) sector ≡ some xs =
        get_elem?-set_self blocks sector xs (omega arith) in
      let (done, v') = read_block-Stands reader sector place inside (omega arith) here h v in
      let next : 4 * sector + place + 1 ≡ 4 * sector + suc place = omega arith in
      let block = clean_block (tag (4 * sector + place)) in
      let again = set-set blocks sector xs (set xs place block) in
      rw (done, next)
        (read_blocks-Stands count (suc place) (set xs place block) _ (omega arith) (rw again at v'))

  read_mifare_classic-Stands :
      (h : Held D)
      → Stands content key uid tag blocks h
      → ((read_mifare_classic nfc sector h).0 ≡ ok true)
        × Stands content key uid tag
            (set blocks sector (sector_of tag sector))
            (read_mifare_classic nfc sector h).1
  unfolding read_mifare_classic
  read_mifare_classic-Stands h v =
      let (s, there, is) = the_sector-IsClassic v.card sector inside in
      let here : get_elem? blocks sector ≡ some s.blocks =
        ap (λ l. get_elem? l sector) (sym v.memory)
        ∙ get_elem?-blocks_of h.card.sectors sector there in
      let same = set_same blocks sector here in
      let (done, v') = read_blocks-Stands 4 0 s.blocks h refl (rw same v) in
      let start = add-zero (4 * sector) in
      let done' : (read_blocks nfc 4 (4 * sector) h).0 ≡ ok tt = rw start at done in
      let v'' = rw (start, fetched_all tag sector s.blocks is.four) at v' in
      rw (first_block_runs sector h v.card inside, there, is.four, done') (refl, v'')

  show_sector_lem :
      (b : Bool) (h : Held D)
      → Stands content key uid tag blocks h
      → ((show_sector sector b h).0 ≡ ok tt)
        × Stands content key uid tag blocks (show_sector sector b h).1
  unfolding show_sector
  show_sector_lem false h v = (refl, v)
  show_sector_lem true h v =
      let (s, there, is) = the_sector-IsClassic v.card sector inside in
      let (done, card, device) = show_blocks_lem 0 s.blocks _ in
      rw there (
        done,
        record {
          card = rw card v.card;
          memory = ap (λ c. blocks_of c.sectors) card ∙ v.memory;
          on_tag = λ n. ap (λ d. content d n) device ∙ v.on_tag n;
        },
      )

-- `readSector` on a tag of 64 blocks that the card's key opens: it returns true, the sector in memory
-- has the bytes of the tag's four blocks and is clean, the other sectors in memory and all of the tag
-- are as before, and the card is still one for this tag.
pub read_sector-Stands :
    {D : Type 0} {nfc : Libnfc D} {content : D → ℕ → List ℕ} {opened : D → ℕ → Bool}
    {key uid : List ℕ} (reader : IsMifare nfc content opened key uid) (sector : ℕ)
    {tag : ℕ → List ℕ} {blocks : List (List Block)} (h : Held D)
    → sector < 16
    → Stands content key uid tag blocks h
    → ((read_sector nfc sector h).0 ≡ ok true)
      × Stands content key uid tag
          (set blocks sector (sector_of tag sector))
          (read_sector nfc sector h).1
unfolding read_sector
read_sector-Stands {nfc} reader sector {tag} {blocks} h inside v =
    let sixteen = Stands-length v in
    let (done, v') = read_mifare_classic-Stands reader sector inside blocks sixteen h v in
    let h' = (read_mifare_classic nfc sector h).1 in
    let (shown, v'') =
      show_sector_lem reader sector inside (set blocks sector (sector_of tag sector))
        (Stands-length v') h'.env.printer.is_debug h' v' in
    rw (done, shown) (refl, v'')
