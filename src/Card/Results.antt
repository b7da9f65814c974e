-- ===== src/Card/Results.antt =====
-- What the sector and card operations of `class Card` (src/card.cpp) can return.
use programme_bee_gadz.Common.{
  ℕ, zero, suc, ◌+◌, ◌≢◌, refl, Bool, true, false, ok, Result, threw, fault, continue, continue-ne,
  pure, ◌>>=◌, ◌>>◌, Action, length,
}
use programme_bee_gadz.Sector.{Sector, size}
use programme_bee_gadz.Mifare.{Libnfc}
use programme_bee_gadz.Card.State.{Held, the_sector}
use programme_bee_gadz.Card.Sectors.{
  first_block, read_blocks, read_mifare_classic, read_sector, read_sectors, read_all_card,
  write_blocks, write_mifare_classic, write_sector, write_sectors, write_all_card, show_sector,
}

ends_true :
    {S A : Type 0} (r : Result A × S) → (continue {B = Bool} (λ u. pure true) r).0 ≢ ok false
ends_true (ok a, s) e = cc
ends_true (threw, s) e = cc
ends_true (fault, s) e = cc

-- After a call that never returns false, what follows a false is dead.
dead_branch :
    {S : Type 0} (f : Bool → Action S Bool) (m : Result Bool × S)
    → m.0 ≢ ok false
    → ((s : S) → (f true s).0 ≢ ok false)
    → (continue f m).0 ≢ ok false
dead_branch f (ok true, s) never keeps e = keeps s e
dead_branch f (ok false, s) never keeps e = absurd (never refl)
dead_branch f (threw, s) never keeps e = cc
dead_branch f (fault, s) never keeps e = cc

module _ {D : Type 0} (nfc : Libnfc D) where
  read_mifare_classic-ne-false :
      (sector : ℕ) (h : Held D) → (read_mifare_classic nfc sector h).0 ≢ ok false
  unfolding read_mifare_classic
  read_mifare_classic-ne-false sector h =
      continue-ne false
        (λ (block : ℕ). the_sector sector >>= λ s. (read_blocks nfc (size s) block >> pure true))
        (λ block t.
          continue-ne false (λ (s : Sector). read_blocks nfc (size s) block >> pure true)
            (λ s u. ends_true (read_blocks nfc (size s) block u)) (the_sector sector t))
        (first_block sector h)

  write_mifare_classic-ne-false :
      (sector : ℕ) (h : Held D) → (write_mifare_classic nfc sector h).0 ≢ ok false
  unfolding write_mifare_classic
  write_mifare_classic-ne-false sector h =
      continue-ne false
        (λ (block : ℕ).
          the_sector sector >>= λ s. (write_blocks nfc (size s) sector 0 block >> pure true))
        (λ block t.
          continue-ne false (λ (s : Sector). write_blocks nfc (size s) sector 0 block >> pure true)
            (λ s u. ends_true (write_blocks nfc (size s) sector 0 block u)) (the_sector sector t))
        (first_block sector h)

  read_sector-ne-false : (sector : ℕ) (h : Held D) → (read_sector nfc sector h).0 ≢ ok false
  unfolding read_sector
  read_sector-ne-false sector h =
      dead_branch _ (read_mifare_classic nfc sector h) (read_mifare_classic-ne-false sector h)
        (λ t. ends_true (show_sector sector t.env.printer.is_debug t))

  read_sectors-ne-false : (n i : ℕ) (h : Held D) → (read_sectors nfc n i h).0 ≢ ok false
  unfolding read_sectors
  read_sectors-ne-false zero i h e = cc
  read_sectors-ne-false (suc n) i h e =
      dead_branch _ (read_sector nfc i h) (read_sector-ne-false i h)
        (read_sectors-ne-false n (i + 1)) e

  write_sectors-ne-false : (n i : ℕ) (h : Held D) → (write_sectors nfc n i h).0 ≢ ok false
  unfolding write_sectors
  write_sectors-ne-false zero i h e = cc
  write_sectors-ne-false (suc n) i h e =
      dead_branch _ (write_mifare_classic nfc i h) (write_mifare_classic-ne-false i h)
        (write_sectors-ne-false n (i + 1)) e

-- `readSector`, `writeSector`, `readAllCard` and `writeAllCard` never return false, whatever the tag
-- answers to the commands: a block that could not be opened, read or written is passed over.
pub sectors-ne-false :
    {D : Type 0} (nfc : Libnfc D) (sector : ℕ) (h : Held D)
    → ((read_sector nfc sector h).0 ≢ ok false)
      × ((write_sector nfc sector h).0 ≢ ok false)
      × ((read_all_card nfc h).0 ≢ ok false)
      × ((write_all_card nfc h).0 ≢ ok false)
unfolding write_sector read_all_card write_all_card
sectors-ne-false nfc sector h = (
  read_sector-ne-false nfc sector h,
  write_mifare_classic-ne-false nfc sector h,
  read_sectors-ne-false nfc (length h.card.sectors) 0 h,
  write_sectors-ne-false nfc (length h.card.sectors) 0 h,
)
