-- ===== src/Card/Sectors.antt =====
-- Whole sectors and whole cards: `readMifareClassic`, `readSector`, `readAllCard` and their writing
-- counterparts (src/card.cpp), and `NfcDevice::findCard(keys, infinite)` (src/nfc_driver.cpp).
use programme_bee_gadz.Common.{
  ℕ, zero, suc, ◌+◌, ◌-◌, ◌%◌, ◌^◌, Bool, true, false, Option, none, some, List, [], ◌∷◌, ◌++◌,
  Action, ◌>>=◌, ◌>>◌, pure, gets, in_range, codes, if◌then◌else◌, take, length, is_positive,
}
use programme_bee_gadz.Block.{Block, is_modified}
use programme_bee_gadz.Sector.{size}
use programme_bee_gadz.Printer.{array_to_string}
use programme_bee_gadz.Printer.Numerals.{hex_of}
use programme_bee_gadz.Mifare.{Libnfc, Target, MifareParam}
use programme_bee_gadz.NfcDevice.{Env, debug, infinite_select, call_select}
use programme_bee_gadz.Card.Layout.{calculate_block}
use programme_bee_gadz.Card.State.{Card, Held, the_sector, new_card}
use programme_bee_gadz.Card.Commands.{
  show_debug, show_error, the_block, authenticate, read_data, write_data,
}

module _ {D : Type 0} where
  -- `calculateBlock(sector) - m_data[sector].size() + 1`
  unfoldable pub first_block : ℕ → Action (Held D) ℕ
  first_block sector = do
    sectors ← gets (λ h. h.card.sectors)
    last ← in_range (calculate_block sector sectors)
    s ← the_sector sector
    pure ((last + 2 ^ 64 - size s + 1) % 2 ^ 64)

  -- `for (auto &i : m_data[sector])`, with the debug lines of each block
  unfoldable pub show_blocks : ℕ → List Block → Action (Held D) (Unit {0})
  show_blocks i [] = pure tt
  show_blocks i (b ∷ bs) = do
    show_debug (codes "Block " ++ hex_of i)
    show_debug (array_to_string b.data_bytes)
    show_blocks (suc i) bs

  -- What `readSector` shows of a sector that it has read.
  unfoldable pub show_sector : ℕ → Bool → Action (Held D) (Unit {0})
  show_sector sector false = pure tt
  show_sector sector true = do
    show_debug (codes "Data on sector " ++ (hex_of sector ++ codes " :"))
    s ← the_sector sector
    show_blocks 0 s.blocks

module _ {D : Type 0} (nfc : Libnfc D) where
  -- One block of `readMifareClassic`
  unfoldable pub read_block : ℕ → Action (Held D) (Unit {0})
  read_block block = do
    opened ← authenticate nfc block
    done ← (if opened then read_data nfc block else pure true)
    if done then pure tt else show_error (codes "Error while loading block " ++ hex_of block)

  -- The loop of `readMifareClassic`, with the blocks left
  unfoldable pub read_blocks : ℕ → ℕ → Action (Held D) (Unit {0})
  read_blocks zero block = pure tt
  read_blocks (suc n) block = do read_block block; read_blocks n (block + 1)

  -- `Card::readMifareClassic`, to which `m_readCard` is bound
  unfoldable pub read_mifare_classic : ℕ → Action (Held D) Bool
  read_mifare_classic sector = do
    block ← first_block sector
    s ← the_sector sector
    read_blocks (size s) block
    pure true

  -- `Card::readSector`
  unfoldable pub read_sector : ℕ → Action (Held D) Bool
  read_sector sector = do
    done ← read_mifare_classic sector
    is_debug ← gets (λ h. h.env.printer.is_debug)
    if done then (show_sector sector is_debug >> pure true) else pure false

  -- `Card::readAllCard`, with the sectors left
  unfoldable pub read_sectors : ℕ → ℕ → Action (Held D) Bool
  read_sectors zero i = pure true
  read_sectors (suc n) i = do
    done ← read_sector i
    if done then read_sectors n (i + 1) else pure false

  unfoldable pub read_all_card : Action (Held D) Bool
  read_all_card = do n ← gets (λ h. length h.card.sectors); read_sectors n 0

  -- `if (authenticate(block)) if (!writeData(block)) …`
  unfoldable pub write_one : ℕ → Action (Held D) (Unit {0})
  write_one block = do
    opened ← authenticate nfc block
    done ← (if opened then write_data nfc block else pure true)
    if done then pure tt else show_error (codes "Error while writing block " ++ hex_of block)

  -- One block of `writeMifareClassic`: the copy `i` that the loop holds, and its number
  unfoldable pub write_block : ℕ → Block → Action (Held D) (Unit {0})
  write_block block i =
      if is_modified i.state
      then write_one block
      else show_debug (codes "Nothing to write on block " ++ hex_of block)

  -- The loop of `writeMifareClassic`, with the blocks left, from place `k` of the sector on
  unfoldable pub write_blocks : ℕ → ℕ → ℕ → ℕ → Action (Held D) (Unit {0})
  write_blocks zero sector k block = pure tt
  write_blocks (suc n) sector k block = do
    i ← the_block sector k
    write_block block i
    write_blocks n sector (suc k) (block + 1)

  -- `Card::writeMifareClassic`, to which `m_writeCard` is bound; `Card::writeSector` only calls it.
  unfoldable pub write_mifare_classic : ℕ → Action (Held D) Bool
  write_mifare_classic sector = do
    block ← first_block sector
    s ← the_sector sector
    write_blocks (size s) sector 0 block
    pure true

  -- `Card::writeSector`
  unfoldable pub write_sector : ℕ → Action (Held D) Bool
  write_sector sector = write_mifare_classic sector

  -- `Card::writeAllCard`, with the sectors left
  unfoldable pub write_sectors : ℕ → ℕ → Action (Held D) Bool
  write_sectors zero i = pure true
  write_sectors (suc n) i = do
    done ← write_mifare_classic i
    if done then write_sectors n (i + 1) else pure false

  unfoldable pub write_all_card : Action (Held D) Bool
  write_all_card = do n ← gets (λ h. length h.card.sectors); write_sectors n 0

  -- `NfcDevice::findCard(keys, infinite)`, where a target was found
  unfoldable pub found_card : List ℕ → Target → MifareParam → Action (Env D) (Option Card)
  found_card keys target raw = do
    debug (codes "Found NFC tag : ")
    debug (codes "UID : " ++ array_to_string (take target.uid_length target.uid))
    debug (codes "Type : " ++ array_to_string (target.atqa_low ∷ []))
    c ← new_card keys target raw
    pure (some c)

  -- `NfcDevice::findCard(keys, infinite)`; `raw` is what the memory of the card's `m_param` held.
  unfoldable pub find_card : List ℕ → Bool → MifareParam → Action (Env D) (Option Card)
  find_card keys infinite raw = do
    done ← infinite_select nfc infinite
    found ← call_select nfc []
    if is_positive found.0 then found_card keys found.1 raw else pure none
