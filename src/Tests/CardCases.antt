-- ===== src/Tests/CardCases.antt =====
-- Cards before the reader of Tests/Reader.antt: block numbers, keys, and a whole sector.
use programme_bee_gadz.Common.{
  ◌*◌, ◌≤◌, ℕ, ◌+◌, ◌≡◌, ◌≢◌, refl, Bool, true, false, none, some, List, [], ◌∷◌, arith, ok, fault,
  replicate,
}
use programme_bee_gadz.Sector.{Sector, new_sector}
use programme_bee_gadz.Printer.{Printer, print_message, array_to_string}
use programme_bee_gadz.Printer.Numerals.{hex_of, hex_pair}
use programme_bee_gadz.Mifare.{nfc_initiator_mifare_cmd}
use programme_bee_gadz.NfcDevice.{mifare_cmd, find_card_uid, infinite_select}
use programme_bee_gadz.Card.Layout.{calculate_block, calculate_sector, find_sector}
use programme_bee_gadz.Card.Layout.Uniform.{
  blocks_before, calculate_sector_lem, calculate_block_lem,
}
use programme_bee_gadz.Card.State.{Card, Held, classic_card}
use programme_bee_gadz.Card.Commands.{authenticate, load_key, command}
use programme_bee_gadz.Card.Sectors.{read_sector, write_sector, read_all_card, write_all_card}
use programme_bee_gadz.Card.Authenticate.{authenticate_one_key}
use programme_bee_gadz.Card.Authenticate.Steps.{attempt, tag_seen, begun}
use programme_bee_gadz.Card.Authenticate.Fuel.{Rounds, authenticate_ends}
use programme_bee_gadz.Card.Authenticate.Rounds.{authenticate-ne-false}
use programme_bee_gadz.Card.Results.{sectors-ne-false}
use programme_bee_gadz.Tests.Reader.{Tag, reader, target}

abbrev pub card : Card
card = classic_card (replicate 6 0xff) target [] (replicate 16 0)

abbrev pub printer : Printer
printer = record { is_debug = false; has_lcd = false; output = [] }

abbrev pub tag : List ℕ → Bool → Tag
tag key present = record {
  present = present;
  key = key;
  open_sector = none;
  cells = λ block. replicate 16 block;
}

abbrev held : Tag → Held Tag
held t = record { card = card; env = record { device = t; infinite = true; printer = printer } }

-- A MIFARE Classic 4K tag: 32 sectors of 4 blocks, then sectors of 16.
abbrev large : List Sector
large = new_sector false 4 false ∷ new_sector false 4 false ∷ new_sector false 16 false ∷ []

calculate_sector_lem_example : calculate_sector (8 + 5) large ≡ some (2, 5)
calculate_sector_lem_example = calculate_sector_lem 2 5 large refl (omega arith)

calculate_block_lem_example :
    (last : ℕ) × (calculate_block 2 large ≡ some last) × (last + 4 + 1 ≡ blocks_before 3 large + 16)
calculate_block_lem_example = calculate_block_lem 2 large refl refl (omega arith) (omega arith)

authenticate_one_key_example : (authenticate reader 4 (held (tag (replicate 6 0) true))).0 ≡ fault
unfolding attempt begun tag_seen load_key command mifare_cmd find_card_uid infinite_select
    nfc_initiator_mifare_cmd print_message array_to_string hex_of hex_pair find_sector
    calculate_sector
authenticate_one_key_example =
    authenticate_one_key reader 4 (held (tag (replicate 6 0) true)) {sector = 1} {place = 0} refl
      refl refl false true refl refl

-- Two rounds at most for six key bytes
authenticate_ends_example :
    (rounds : ℕ) × (6 * rounds ≤ 12)
    × Rounds reader 1 4 rounds 0
        (begun 4 (held (tag (replicate 6 0) true)))
        (authenticate reader 4 (held (tag (replicate 6 0) true)))
unfolding calculate_sector find_sector
authenticate_ends_example =
    authenticate_ends reader 4 (held (tag (replicate 6 0) true)) {sector = 1} {place = 0} refl

authenticate-ne-false_example :
    (authenticate reader 4 (held (tag (replicate 6 0) false))).0 ≢ ok false
authenticate-ne-false_example =
    authenticate-ne-false reader 4 (held (tag (replicate 6 0) false)) (omega arith)

sectors-ne-false_example :
    ((read_sector reader 1 (held (tag (replicate 6 0xff) true))).0 ≢ ok false)
    × ((write_sector reader 1 (held (tag (replicate 6 0xff) true))).0 ≢ ok false)
    × ((read_all_card reader (held (tag (replicate 6 0xff) true))).0 ≢ ok false)
    × ((write_all_card reader (held (tag (replicate 6 0xff) true))).0 ≢ ok false)
sectors-ne-false_example = sectors-ne-false reader 1 (held (tag (replicate 6 0xff) true))
