-- ===== src/Card/RoundTrip.antt =====
-- A block that is written to a tag and read back (`writeData` and `readData` of src/card.cpp).
use programme_bee_gadz.Common.{
  ℕ, ◌%◌, ◌<◌, ◌^◌, ◌≡◌, ap, ◌∙◌, true, Option, some, List, [], ◌∷◌, ok, pos, set, get_elem?,
  length, ◌==◌, ==_refl, if◌then◌else◌,
}
use programme_bee_gadz.Block.{Block, State, IsBlock}
use programme_bee_gadz.Sector.{Sector}
use programme_bee_gadz.Mifare.{Libnfc, Property}
use programme_bee_gadz.Card.Layout.{calculate_sector}
use programme_bee_gadz.Card.State.{Held}
use programme_bee_gadz.Card.Commands.{read_data, write_data}
use programme_bee_gadz.Card.Data.{read_data_lem, write_data_lem}

-- A block that reads as what was written to it: not the maker's block, and not a trailer, whose key A
-- never reads back. The trailer is the last block of a sector of four or of sixteen blocks, which start at
-- multiples of four.
abbrev pub IsData : ℕ → Type 0
IsData n = (0 < n) × (n % 4 < 3)

-- What the program relies on of a reader with a MIFARE Classic tag: `cell d n` is what block `n` of the
-- tag reads as, if its sector is open with a key that may read and write it.
pub record IsTag {D : Type 0} (nfc : Libnfc D) (cell : D → ℕ → Option (List ℕ)) : Type 0 where
  -- The framing can be set, and the tag does not change.
  pub framing :
      (d : D)
      → (r : ℕ) × (d' : D) × (nfc.set_property_bool Property.easy_framing true d ≡ (pos r, d'))
        × ((n : ℕ) → cell d' n ≡ cell d n)
  -- An open block can be read.
  pub reads :
      (d : D) (n : ℕ) {bytes : List ℕ}
      → cell d n ≡ some bytes
      → (length bytes ≡ 16)
        × (d' : D) × (nfc.transceive_bytes (0x30 ∷ n ∷ []) d ≡ (pos 16, bytes, d'))
        × ((m : ℕ) → cell d' m ≡ cell d m)
  -- An open block of data can be written.
  pub writes :
      (d : D) (n : ℕ) {old : List ℕ} (bytes : List ℕ)
      → cell d n ≡ some old
      → IsData n
      → length bytes ≡ 16
      → (r : ℕ) × (rx : List ℕ) × (d' : D) × (nfc.transceive_bytes (0xa0 ∷ n ∷ bytes) d
          ≡ (pos r, rx, d'))
        × ((m : ℕ) → cell d' m ≡ (if m == n then some bytes else cell d m))

module _ {D : Type 0} {nfc : Libnfc D} {cell : D → ℕ → Option (List ℕ)} (tag : IsTag nfc cell)
    (block : ℕ) (h : Held D) {sector place : ℕ} {s : Sector} {b : Block} {old : List ℕ}
    (at : calculate_sector block h.card.sectors ≡ some (sector, place))
    (there : get_elem? h.card.sectors sector ≡ some s) (here : get_elem? s.blocks place ≡ some b)
    (whole : IsBlock b) (sixteen : length h.card.param ≡ 16)
    (is_open : cell h.env.device (block % 2 ^ 8) ≡ some old) where
  -- A block that the card has in memory and that is open on the tag: `readData` returns true, takes
  -- the tag's bytes into memory as a clean block, changes nothing else of the sectors, and changes
  -- nothing on the tag.
  pub read_data_tag :
      ((read_data nfc block h).0 ≡ ok true)
      × ((read_data nfc block h).1.card.sectors
          ≡ set h.card.sectors sector (record s {
            blocks = set s.blocks place (record { data_bytes = old; state = State.clean });
          }))
      × ((n : ℕ) → cell (read_data nfc block h).1.env.device n ≡ cell h.env.device n)
  read_data_tag =
      let (r, d1, framed, same) = tag.framing h.env.device in
      let (long, d2, answered, kept) =
        tag.reads d1 (block % 2 ^ 8) (same (block % 2 ^ 8) ∙ is_open) in
      let (done, sectors, device) =
        read_data_lem nfc block h at there here whole sixteen long framed answered in
      (done, sectors, λ n. ap (λ d. cell d n) device ∙ kept n ∙ same n)

  module _ (data_block : IsData (block % 2 ^ 8)) (changed : b.state ≡ State.modified) where
    -- A modified block of data of the card in memory that is open on the tag: `writeData` returns true, puts
    -- the block's bytes on the tag, changes no other block there and nothing of the sectors in memory.
    pub write_data_tag :
        ((write_data nfc block h).0 ≡ ok true)
        × ((write_data nfc block h).1.card.sectors ≡ h.card.sectors)
        × ((n : ℕ)
            → cell (write_data nfc block h).1.env.device n
              ≡ (if n == block % 2 ^ 8 then some b.data_bytes else cell h.env.device n))
        × (length (write_data nfc block h).1.card.param ≡ 16)
    write_data_tag =
        let (r, d1, framed, same) = tag.framing h.env.device in
        let (k, rx, d2, sent, cells) =
          tag.writes d1 (block % 2 ^ 8) b.data_bytes (same (block % 2 ^ 8) ∙ is_open) data_block
            whole in
        let (done, sectors, device, long) =
          write_data_lem nfc block h at there here whole changed sixteen framed sent in
        (
          done,
          sectors,
          λ n.
              ap (λ d. cell d n) device
              ∙ cells n
              ∙ ap (λ o. if n == block % 2 ^ 8 then some b.data_bytes else o) (same n),
          long,
        )

-- A modified block of the card in memory that is open on the tag and is neither the maker's block nor a
-- trailer, written and then read back: both calls return true, and the block in memory has the bytes that
-- it had, and is clean.
pub write_read_data :
    {D : Type 0} {nfc : Libnfc D} {cell : D → ℕ → Option (List ℕ)}
    → IsTag nfc cell
    → (block : ℕ) (h : Held D) {sector place : ℕ} {s : Sector} {b : Block} {old : List ℕ}
    → calculate_sector block h.card.sectors ≡ some (sector, place)
    → get_elem? h.card.sectors sector ≡ some s
    → get_elem? s.blocks place ≡ some b
    → IsBlock b
    → length h.card.param ≡ 16
    → cell h.env.device (block % 2 ^ 8) ≡ some old
    → IsData (block % 2 ^ 8)
    → b.state ≡ State.modified
    → ((write_data nfc block h).0 ≡ ok true)
      × ((read_data nfc block (write_data nfc block h).1).0 ≡ ok true)
      × ((read_data nfc block (write_data nfc block h).1).1.card.sectors
          ≡ set h.card.sectors sector (record s {
            blocks = set s.blocks place (record { data_bytes = b.data_bytes; state = State.clean });
          }))
write_read_data {D} {nfc} {cell} tag block h {sector} {place} {s} {b} at there here whole sixteen
      is_open data_block changed =
    let (done, sectors, cells, long) =
      write_data_tag tag block h at there here whole sixteen is_open data_block changed in
    let h' = (write_data nfc block h).1 in
    let same_block = ==_refl (block % 2 ^ 8) in
    let put : cell h'.env.device (block % 2 ^ 8) ≡ some b.data_bytes =
      rw same_block at (cells (block % 2 ^ 8)) in
    let at' : calculate_sector block h'.card.sectors ≡ some (sector, place) =
      ap (calculate_sector block) sectors ∙ at in
    let there' : get_elem? h'.card.sectors sector ≡ some s =
      ap (λ ss. get_elem? ss sector) sectors ∙ there in
    let (read, fetched, same) = read_data_tag tag block h' at' there' here whole long put in
    (
      done,
      read,
      fetched
          ∙ ap
              (λ ss. set ss sector (record s {
                blocks =
                    set s.blocks place (record { data_bytes = b.data_bytes; state = State.clean });
              }))
              sectors,
    )
