-- ===== src/Card/Data.antt =====
-- `Card::readData` and `Card::writeData` (src/card.cpp) against what the reader is sent and answers.
use programme_bee_gadz.Common.{
  take-whole, ℕ, ◌%◌, ◌^◌, ◌≡◌, refl, ap, ◌∙◌, true, some, List, [], ◌∷◌, arith, ok, pos, set,
  get_elem?, take, write_at, length, write_at_all, length-write_at,
}
use programme_bee_gadz.Block.{Block, State, IsBlock}
use programme_bee_gadz.Sector.{Sector}
use programme_bee_gadz.Mifare.{
  Libnfc, Property, param_length, take_answer, send_frame, nfc_initiator_mifare_cmd,
}
use programme_bee_gadz.NfcDevice.{mifare_cmd}
use programme_bee_gadz.Card.Layout.{calculate_sector}
use programme_bee_gadz.Card.State.{Held, uid_of}
use programme_bee_gadz.Card.Commands.{command, fill_block, read_data, send_block, write_data}

-- What `readData` makes of the card in memory, with a reader that takes the setting of the framing
-- and answers the frame 30 and the block's number with 16 bytes.
pub read_data_runs :
    {D : Type 0} (nfc : Libnfc D) (block : ℕ) (h : Held D) {sector place r : ℕ} {s : Sector}
    {b : Block} {d1 d2 : D} {rx : List ℕ}
    → calculate_sector block h.card.sectors ≡ some (sector, place)
    → get_elem? h.card.sectors sector ≡ some s
    → get_elem? s.blocks place ≡ some b
    → IsBlock b
    → length h.card.param ≡ 16
    → length rx ≡ 16
    → nfc.set_property_bool Property.easy_framing true h.env.device ≡ (pos r, d1)
    → nfc.transceive_bytes (0x30 ∷ block % 2 ^ 8 ∷ []) d1 ≡ (pos 16, rx, d2)
    → ((read_data nfc block h).0 ≡ ok true)
      × ((read_data nfc block h).1.card ≡ record h.card {
        param = rx;
        sectors = set h.card.sectors sector (record s {
          blocks = set s.blocks place (record { data_bytes = rx; state = State.clean });
        });
      })
      × ((read_data nfc block h).1.env.device ≡ d2)
unfolding read_data command mifare_cmd nfc_initiator_mifare_cmd send_frame param_length take_answer
    fill_block
read_data_runs nfc block h {sector} {place} {r} {s} {b} {d1} {d2} {rx} at there here whole sixteen
      answer framed received =
    let param = write_at 6 (uid_of h.card) h.card.param in
    let taken : write_at 0 (take 16 rx) param ≡ rx =
      ap (λ bytes. write_at 0 bytes param) (take-whole 16 rx answer)
      ∙ write_at_all rx param (omega (arith, length-write_at 6 (uid_of h.card) h.card.param)) in
    let filled : write_at 0 (take (length b.data_bytes) (write_at 0 (take 16 rx) param))
          b.data_bytes
        ≡ rx =
      ap (λ bytes. write_at 0 (take (length b.data_bytes) bytes) b.data_bytes) taken
      ∙ ap (λ bytes. write_at 0 bytes b.data_bytes)
          (take-whole (length b.data_bytes) rx (omega arith))
      ∙ write_at_all rx b.data_bytes (omega arith) in
    rw (at, framed, received, there, here, there, filled)
      (
        refl,
        ap
            (λ p. record h.card {
              param = p;
              sectors = set h.card.sectors sector (record s {
                blocks = set s.blocks place (record { data_bytes = rx; state = State.clean });
              });
            })
            taken,
        refl,
      )

-- `readData` of a block that the card has, with a reader that takes the setting of the framing and
-- answers the frame 30 and the block's number with 16 bytes: it returns true, the block in memory has
-- these bytes and is clean, and nothing else of the sectors has changed.
pub read_data_lem :
    {D : Type 0} (nfc : Libnfc D) (block : ℕ) (h : Held D) {sector place r : ℕ} {s : Sector}
    {b : Block} {d1 d2 : D} {rx : List ℕ}
    → calculate_sector block h.card.sectors ≡ some (sector, place)
    → get_elem? h.card.sectors sector ≡ some s
    → get_elem? s.blocks place ≡ some b
    → IsBlock b
    → length h.card.param ≡ 16
    → length rx ≡ 16
    → nfc.set_property_bool Property.easy_framing true h.env.device ≡ (pos r, d1)
    → nfc.transceive_bytes (0x30 ∷ block % 2 ^ 8 ∷ []) d1 ≡ (pos 16, rx, d2)
    → ((read_data nfc block h).0 ≡ ok true)
      × ((read_data nfc block h).1.card.sectors
          ≡ set h.card.sectors sector (record s {
            blocks = set s.blocks place (record { data_bytes = rx; state = State.clean });
          }))
      × ((read_data nfc block h).1.env.device ≡ d2)
read_data_lem nfc block h at there here whole sixteen answer framed received =
    let (done, card, device) =
      read_data_runs nfc block h at there here whole sixteen answer framed received in
    (done, ap (λ c. c.sectors) card, device)

-- What `writeData` of a modified block makes of the card in memory, with a reader that takes the
-- frame a0, the block's number and the block's bytes.
pub write_data_runs :
    {D : Type 0} (nfc : Libnfc D) (block : ℕ) (h : Held D) {sector place r n : ℕ} {s : Sector}
    {b : Block} {d1 d2 : D} {rx : List ℕ}
    → calculate_sector block h.card.sectors ≡ some (sector, place)
    → get_elem? h.card.sectors sector ≡ some s
    → get_elem? s.blocks place ≡ some b
    → IsBlock b
    → b.state ≡ State.modified
    → length h.card.param ≡ 16
    → nfc.set_property_bool Property.easy_framing true h.env.device ≡ (pos r, d1)
    → nfc.transceive_bytes (0xa0 ∷ block % 2 ^ 8 ∷ b.data_bytes) d1 ≡ (pos n, rx, d2)
    → ((write_data nfc block h).0 ≡ ok true)
      × ((write_data nfc block h).1.card ≡ record h.card { param = b.data_bytes })
      × ((write_data nfc block h).1.env.device ≡ d2)
unfolding write_data send_block command mifare_cmd nfc_initiator_mifare_cmd send_frame param_length
    take_answer
write_data_runs nfc block h {sector} {place} {r} {n} {s} {b} at there here whole changed sixteen
      framed sent =
    let over = write_at_all b.data_bytes h.card.param (omega arith) in
    let loaded : take 16 (write_at 0 b.data_bytes h.card.param) ≡ b.data_bytes =
      ap (take 16) over ∙ take-whole 16 b.data_bytes whole in
    rw (at, there, here, changed, framed, loaded, sent)
      (refl, ap (λ p. record h.card { param = p }) over, refl)

-- `writeData` of a block that is modified, with a reader that takes the setting of the framing and
-- the frame a0, the block's number and the 16 bytes of the block in memory: it returns true and changes
-- nothing of the sectors, where the block is still marked as modified.
pub write_data_lem :
    {D : Type 0} (nfc : Libnfc D) (block : ℕ) (h : Held D) {sector place r n : ℕ} {s : Sector}
    {b : Block} {d1 d2 : D} {rx : List ℕ}
    → calculate_sector block h.card.sectors ≡ some (sector, place)
    → get_elem? h.card.sectors sector ≡ some s
    → get_elem? s.blocks place ≡ some b
    → IsBlock b
    → b.state ≡ State.modified
    → length h.card.param ≡ 16
    → nfc.set_property_bool Property.easy_framing true h.env.device ≡ (pos r, d1)
    → nfc.transceive_bytes (0xa0 ∷ block % 2 ^ 8 ∷ b.data_bytes) d1 ≡ (pos n, rx, d2)
    → ((write_data nfc block h).0 ≡ ok true)
      × ((write_data nfc block h).1.card.sectors ≡ h.card.sectors)
      × ((write_data nfc block h).1.env.device ≡ d2)
      × (length (write_data nfc block h).1.card.param ≡ 16)
write_data_lem nfc block h at there here whole changed sixteen framed sent =
    let (done, card, device) =
      write_data_runs nfc block h at there here whole changed sixteen framed sent in
    (done, ap (λ c. c.sectors) card, device, ap (λ c. length c.param) card ∙ whole)
