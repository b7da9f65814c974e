-- ===== src/Card/Tag/Whole.antt =====
-- `Card::readAllCard` and `Card::writeAllCard` (src/card.cpp) on a tag that the card's key opens, and
-- a sector that is written and read back.
use programme_bee_gadz.Common.{
  ℕ, zero, suc, ◌+◌, ◌*◌, ◌≡◌, refl, ap, ◌∙◌, Bool, true, List, [], ◌∷◌, arith, ok, length, drop,
  drop-cons, set,
}
use programme_bee_gadz.Block.{Block}
use programme_bee_gadz.Mifare.{Libnfc}
use programme_bee_gadz.Card.State.{Held}
use programme_bee_gadz.Card.Sectors.{
  read_sectors, read_all_card, write_mifare_classic, write_sector, write_sectors, write_all_card,
}
use programme_bee_gadz.Card.Tag.{IsMifare, Stands, Stands-length}
use programme_bee_gadz.Card.Tag.Reading.{sector_of, read_sector-Stands}
use programme_bee_gadz.Card.Tag.Writing.{pushed, AreWritable, write_sector-Stands}

-- `f 0`, `f 1`, …
abbrev pub tabulate {ℓ} : {A : Type ℓ} → ℕ → (ℕ → A) → List A
tabulate zero f = []
tabulate (suc n) f = f 0 ∷ tabulate n (λ i. f (suc i))

-- `count` places of the list from `i` on, set to the values of `f`.
fill {ℓ} : {A : Type ℓ} → (ℕ → A) → ℕ → ℕ → List A → List A
fill f zero i xs = xs
fill f (suc count) i xs = fill f count (suc i) (set xs i (f i))

module _ {ℓ} {A : Type ℓ} where
  fill-cons :
      (f : ℕ → A) (count i : ℕ) (x : A) (xs : List A)
      → fill f count (suc i) (x ∷ xs) ≡ x ∷ fill (λ j. f (suc j)) count i xs
  unfolding fill
  fill-cons f zero i x xs = refl
  fill-cons f (suc count) i x xs = fill-cons f count (suc i) x (set xs i (f (suc i)))

  fill_all : (f : ℕ → A) (n : ℕ) (xs : List A) → length xs ≡ n → fill f n 0 xs ≡ tabulate n f
  unfolding fill
  fill_all f zero [] e = refl
  fill_all f zero (x ∷ xs) e = absurd (omega arith)
  fill_all f (suc n) [] e = absurd (omega arith)
  fill_all f (suc n) (x ∷ xs) e =
      fill-cons f n 0 (f 0) xs
      ∙ ap (λ rest. f 0 ∷ rest) (fill_all (λ j. f (suc j)) n xs (omega arith))

-- The blocks of the whole tag, in its 16 sectors.
abbrev pub card_of : (ℕ → List ℕ) → List (List Block)
card_of tag = tabulate 16 (sector_of tag)

-- The tag once the sectors `rest` in memory, which are those from `i` on, have been stored.
abbrev pub pushed_card : ℕ → List (List Block) → (ℕ → List ℕ) → ℕ → List ℕ
pushed_card i [] tag = tag
pushed_card i (xs ∷ rest) tag = pushed_card (i + 1) rest (pushed (4 * i) xs tag)

-- Every modified block of these sectors can be written.
abbrev pub IsWritableCard : ℕ → List (List Block) → Type 0
IsWritableCard i [] = Unit
IsWritableCard i (xs ∷ rest) = AreWritable (4 * i) xs × IsWritableCard (i + 1) rest

module _ {D : Type 0} {nfc : Libnfc D} {content : D → ℕ → List ℕ} {opened : D → ℕ → Bool}
    {key uid : List ℕ} (reader : IsMifare nfc content opened key uid) where
  read_sectors-Stands :
      (n i : ℕ) {tag : ℕ → List ℕ} (blocks : List (List Block)) (h : Held D)
      → n + i ≡ 16
      → Stands content key uid tag blocks h
      → ((read_sectors nfc n i h).0 ≡ ok true)
        × Stands content key uid tag (fill (sector_of tag) n i blocks) (read_sectors nfc n i h).1
  unfolding read_sectors fill
  read_sectors-Stands zero i blocks h e v = (refl, v)
  read_sectors-Stands (suc n) i {tag} blocks h e v =
      let (done, v') = read_sector-Stands reader i h (omega arith) v in
      let next : i + 1 ≡ suc i = omega arith in
      rw (done, next)
        (read_sectors-Stands n (suc i) (set blocks i (sector_of tag i)) _ (omega arith) v')

  write_sectors-Stands :
      (rest : List (List Block)) (n i : ℕ) {tag : ℕ → List ℕ} (blocks : List (List Block))
      (h : Held D)
      → length rest ≡ n
      → n + i ≡ 16
      → drop i blocks ≡ rest
      → IsWritableCard i rest
      → Stands content key uid tag blocks h
      → ((write_sectors nfc n i h).0 ≡ ok true)
        × Stands content key uid (pushed_card i rest tag) blocks (write_sectors nfc n i h).1
  unfolding write_sectors
  write_sectors-Stands [] zero i blocks h long e left can v = (refl, v)
  write_sectors-Stands [] (suc n) i blocks h long e left can v = absurd (omega arith)
  write_sectors-Stands (xs ∷ rest) zero i blocks h long e left can v = absurd (omega arith)
  write_sectors-Stands (xs ∷ rest) (suc n) i blocks h long e left can v =
      let (at, later) = drop-cons blocks i left in
      let (done, v') = write_sector-Stands reader i h (omega arith) at can.0 v in
      let done' : (write_mifare_classic nfc i h).0 ≡ ok true = unfold write_sector in done in
      let next : suc i ≡ i + 1 = omega arith in
      rw done' (
        write_sectors-Stands rest n (i + 1) blocks _ (omega arith) (omega arith) (rw (← next) later)
          can.1 (unfold write_sector in v'))

-- `readAllCard` on a tag of 64 blocks that the card's key opens: it returns true, and the card in
-- memory is the tag, block for block, and clean; the tag is as before.
pub read_all_card-Stands :
    {D : Type 0} {nfc : Libnfc D} {content : D → ℕ → List ℕ} {opened : D → ℕ → Bool}
    {key uid : List ℕ} (reader : IsMifare nfc content opened key uid) {tag : ℕ → List ℕ}
    {blocks : List (List Block)} (h : Held D)
    → Stands content key uid tag blocks h
    → ((read_all_card nfc h).0 ≡ ok true)
      × Stands content key uid tag (card_of tag) (read_all_card nfc h).1
unfolding read_all_card
read_all_card-Stands reader {tag} {blocks} h v =
    let (done, v') = read_sectors-Stands reader 16 0 blocks h refl v in
    let all = fill_all (sector_of tag) 16 blocks (Stands-length v) in
    let v'' = rw all at v' in rw v.card.count (done, v'')

-- `writeAllCard` on a tag of 64 blocks that the card's key opens, where no block that a write does not
-- fill is modified in memory: it returns true, the tag takes the bytes of all modified blocks and is
-- otherwise as before, and the card in memory has the blocks that it had.
pub write_all_card-Stands :
    {D : Type 0} {nfc : Libnfc D} {content : D → ℕ → List ℕ} {opened : D → ℕ → Bool}
    {key uid : List ℕ} (reader : IsMifare nfc content opened key uid) {tag : ℕ → List ℕ}
    {blocks : List (List Block)} (h : Held D)
    → IsWritableCard 0 blocks
    → Stands content key uid tag blocks h
    → ((write_all_card nfc h).0 ≡ ok true)
      × Stands content key uid (pushed_card 0 blocks tag) blocks (write_all_card nfc h).1
unfolding write_all_card
write_all_card-Stands reader {blocks = blocks} h can v =
    rw v.card.count
      (write_sectors-Stands reader blocks 16 0 blocks h (Stands-length v) refl refl can v)
