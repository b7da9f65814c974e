-- ===== src/Card/Tag/Stored.antt =====
-- A sector that is written to a tag (`Card::writeSector`) and read back (`Card::readSector`), of
-- src/card.cpp.
use programme_bee_gadz.Common.{
  ℕ, zero, suc, ◌+◌, ◌*◌, ◌<◌, ◌≡◌, ◌≢◌, refl, ap, ◌∙◌, sym, Bool, true, false, some, List, [], ◌∷◌,
  map, arith, ok, length, get_elem?, set, ==_refl, ==_ne,
}
use programme_bee_gadz.Block.{Block, State, set_state, is_modified}
use programme_bee_gadz.Mifare.{Libnfc}
use programme_bee_gadz.Card.State.{Held}
use programme_bee_gadz.Card.Sectors.{read_sector, write_sector}
use programme_bee_gadz.Card.Tag.{IsMifare, Stands, the_sector_of}
use programme_bee_gadz.Card.Tag.Fetching.{clean_block}
use programme_bee_gadz.Card.Tag.Reading.{sector_of, read_sector-Stands}
use programme_bee_gadz.Card.Tag.Writing.{stored, pushed, AreWritable, write_sector-Stands}

-- The blocks that are not modified have the bytes of blocks `n`, `n + 1`, … of the tag.
abbrev pub Agrees : (ℕ → List ℕ) → ℕ → List Block → Type 0
Agrees tag n [] = Unit
Agrees tag n (b ∷ bs) = (is_modified b.state ≡ false → tag n ≡ b.data_bytes) × Agrees tag (n + 1) bs

-- Blocks `n`, `n + 1`, … of the tag
abbrev mirror : (ℕ → List ℕ) → ℕ → ℕ → List Block
mirror tag zero n = []
mirror tag (suc count) n = clean_block (tag n) ∷ mirror tag count (n + 1)

stored-ne : (n m : ℕ) (b : Block) (tag : ℕ → List ℕ) → m ≢ n → stored n b tag m ≡ tag m
stored-ne n m b tag other = by_state b.state refl
  where
    by_state : (st : State) → b.state ≡ st → stored n b tag m ≡ tag m
    by_state State.clean e = rw e refl
    by_state State.dirty e = rw e refl
    by_state State.modified e = rw (e, ==_ne m n other) refl

pub stored_self :
    (n : ℕ) (b : Block) (tag : ℕ → List ℕ)
    → (is_modified b.state ≡ false → tag n ≡ b.data_bytes)
    → stored n b tag n ≡ b.data_bytes
stored_self n b tag agrees = by_state b.state refl
  where
    by_state : (st : State) → b.state ≡ st → stored n b tag n ≡ b.data_bytes
    by_state State.clean e = rw e (agrees (rw e refl))
    by_state State.dirty e = rw e (agrees (rw e refl))
    by_state State.modified e = rw (e, ==_refl n) refl

-- What is stored further on does not change the blocks before.
pub pushed_before :
    (n m : ℕ) (bs : List Block) (tag : ℕ → List ℕ) → m < n → pushed n bs tag m ≡ tag m
pushed_before n m [] tag h = refl
pushed_before n m (b ∷ bs) tag h =
    pushed_before (n + 1) m bs (stored n b tag) (omega arith)
    ∙ stored-ne n m b tag (λ same. (omega arith))

Agrees-later :
    (tag tag' : ℕ → List ℕ) (n m : ℕ) (bs : List Block)
    → ((i : ℕ) → n < i → tag' i ≡ tag i)
    → n < m
    → Agrees tag m bs
    → Agrees tag' m bs
Agrees-later tag tag' n m [] same h agrees = tt
Agrees-later tag tag' n m (b ∷ bs) same h agrees =
    (λ e. same m h ∙ agrees.0 e, Agrees-later tag tag' n (m + 1) bs same (omega arith) agrees.1)

mirror-pushed :
    (n : ℕ) (bs : List Block) (tag : ℕ → List ℕ)
    → Agrees tag n bs
    → mirror (pushed n bs tag) (length bs) n ≡ map (set_state State.clean) bs
mirror-pushed n [] tag agrees = refl
mirror-pushed n (b ∷ bs) tag agrees =
    let first : pushed (n + 1) bs (stored n b tag) n ≡ b.data_bytes =
      pushed_before (n + 1) n bs (stored n b tag) (omega arith) ∙ stored_self n b tag agrees.0 in
    let rest = mirror-pushed (n + 1) bs (stored n b tag) (
      Agrees-later tag (stored n b tag) n (n + 1) bs
        (λ i h. stored-ne n i b tag (λ same. (omega arith))) (omega arith) agrees.1) in
    rw (first, rest) refl

mirror-sector_of : (tag : ℕ → List ℕ) (k : ℕ) → mirror tag 4 (4 * k) ≡ sector_of tag k
mirror-sector_of tag k =
    let second : 4 * k + 1 + 1 ≡ 4 * k + 2 = omega arith in
    let third : 4 * k + 2 + 1 ≡ 4 * k + 3 = omega arith in rw (second, third) refl

-- `writeSector` and then `readSector` on a tag of 64 blocks that the card's key opens, where no block
-- that a write does not fill is modified in memory, and the blocks that are not modified have the
-- tag's bytes: both calls return true, the sector in memory has the bytes that it had and is clean,
-- the other sectors in memory are as before, and the tag took the modified blocks.
pub write_read_sector :
    {D : Type 0} {nfc : Libnfc D} {content : D → ℕ → List ℕ} {opened : D → ℕ → Bool}
    {key uid : List ℕ} (reader : IsMifare nfc content opened key uid) (sector : ℕ)
    {tag : ℕ → List ℕ} {blocks : List (List Block)} {xs : List Block} (h : Held D)
    → sector < 16
    → get_elem? blocks sector ≡ some xs
    → AreWritable (4 * sector) xs
    → Agrees tag (4 * sector) xs
    → Stands content key uid tag blocks h
    → ((write_sector nfc sector h).0 ≡ ok true)
      × ((read_sector nfc sector (write_sector nfc sector h).1).0 ≡ ok true)
      × Stands content key uid
          (pushed (4 * sector) xs tag)
          (set blocks sector (map (set_state State.clean) xs))
          (read_sector nfc sector (write_sector nfc sector h).1).1
write_read_sector {nfc = nfc} reader sector {tag} {blocks} {xs} h inside here can agrees v =
    let (s, there, is, same) = the_sector_of h sector v inside here in
    let four : length xs ≡ 4 = ap length (sym same) ∙ is.four in
    let (written, v') = write_sector-Stands reader sector h inside here can v in
    let (read, v'') = read_sector-Stands reader sector (write_sector nfc sector h).1 inside v' in
    let kept : sector_of (pushed (4 * sector) xs tag) sector ≡ map (set_state State.clean) xs =
      sym (mirror-sector_of (pushed (4 * sector) xs tag) sector)
      ∙ ap (λ n. mirror (pushed (4 * sector) xs tag) n (4 * sector)) (sym four)
      ∙ mirror-pushed (4 * sector) xs tag agrees in
    (written, read, rw (← kept) v'')
