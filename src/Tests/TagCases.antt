-- ===== src/Tests/TagCases.antt =====
-- The tag of Tests/Reader.antt as one that can be read and written, and a block that is written to it.
use programme_bee_gadz.Common.{
  ℕ, zero, suc, ◌≤◌, ◌==◌, ==_iff, ◌≡◌, inl, inr, refl, sym, ap, ◌∙◌, true, false, ◌&&◌, Bool-cases,
  Option, none, some, List, [], ◌∷◌, ◌++◌, arith, ok, if◌then◌else◌, set, take, length, replicate,
}
use programme_bee_gadz.Block.{Block, State}
use programme_bee_gadz.Sector.{Sector}
use programme_bee_gadz.Card.Layout.{calculate_sector, find_sector}
use programme_bee_gadz.Card.State.{Held}
use programme_bee_gadz.Card.Commands.{read_data, write_data}
use programme_bee_gadz.Card.RoundTrip.{IsTag, write_read_data}
use programme_bee_gadz.Tests.Reader.{Tag, reader, sixteen, is_open}
use programme_bee_gadz.Tests.CardCases.{card, printer, tag}

abbrev cell : Tag → ℕ → Option (List ℕ)
cell t n = if t.present && is_open t.open_sector n then some (sixteen (t.cells n)) else none

pub length-padded : (n m : ℕ) (xs : List ℕ) → n ≤ m → length (take n (xs ++ replicate m 0)) ≡ n
length-padded zero m xs h = refl
length-padded (suc n) zero xs h = absurd (omega arith)
length-padded (suc n) (suc m) [] h = ap suc (length-padded n m [] (omega arith))
length-padded (suc n) (suc m) (x ∷ xs) h = ap suc (length-padded n (suc m) xs (omega arith))

pub take-padded : (n m : ℕ) (xs : List ℕ) → length xs ≡ n → take n (xs ++ replicate m 0) ≡ xs
take-padded zero m [] h = refl
take-padded zero m (x ∷ xs) h = absurd (omega arith)
take-padded (suc n) m [] h = absurd (omega arith)
take-padded (suc n) m (x ∷ xs) h = ap (λ rest. x ∷ rest) (take-padded n m xs (omega arith))

-- A cell that can be read is on a tag that is there and has the sector open.
opened :
    (t : Tag) (n : ℕ) {bytes : List ℕ}
    → cell t n ≡ some bytes
    → (t.present ≡ true) × (is_open t.open_sector n ≡ true) × (sixteen (t.cells n) ≡ bytes)
opened t n e = elim (Bool-cases t.present) [
  | inl there ↦ elim (Bool-cases (is_open t.open_sector n)) [
    | inl on ↦ (there, on, cc (rw (there, on) at e))
    | inr off ↦ cc (rw (there, off) at e)
  ]
  | inr gone ↦ cc (rw gone at e)
]

reader-IsTag : IsTag reader cell
reader-IsTag = record {
  framing = λ d. (0, d, refl, λ n. refl);
  reads = λ d n e.
      let (there, on, bytes) = opened d n e in
      (
        ap length (sym bytes) ∙ length-padded 16 16 (d.cells n) (omega arith),
        d,
        rw (there, on, bytes) refl,
        λ m. refl,
      );
  writes = λ d n bytes e data_block whole.
      let (there, on, old) = opened d n e in
      (
        0,
        [],
        record d { cells = λ m. if m == n then bytes else d.cells m },
        rw (there, on) refl,
        λ m. elim (Bool-cases (m == n)) [
          | inl same ↦
              let named : m ≡ n = (==_iff m n).0 same in
              let here : is_open d.open_sector m ≡ true = rw named on in
              rw (same, there, here) (ap some (take-padded 16 16 bytes whole))
          | inr other ↦ rw other refl
        ],
      );
}

abbrev changed_block : Block
changed_block = record { data_bytes = replicate 16 7; state = State.modified }

abbrev changed_sector : Sector
changed_sector = record {
  blocks = changed_block ∷ changed_block ∷ [];
  key = replicate 6 0xff;
  is_trailer = false;
  key_b = false;
}

-- Sector 1 of the tag is open, and its first block in memory has been changed.
abbrev open_card : Held Tag
open_card = record {
  card = record card { sectors = set card.sectors 1 changed_sector };
  env = record {
    device = record (tag (replicate 6 0xff) true) { open_sector = some 1 };
    infinite = true;
    printer = printer;
  };
}

abbrev fetched : List ℕ → List Sector
fetched bytes = set open_card.card.sectors 1 (record changed_sector {
  blocks = set changed_sector.blocks 0 (record { data_bytes = bytes; state = State.clean });
})

write_read_data_example :
    ((write_data reader 4 open_card).0 ≡ ok true)
    × ((read_data reader 4 (write_data reader 4 open_card).1).0 ≡ ok true)
    × ((read_data reader 4 (write_data reader 4 open_card).1).1.card.sectors
        ≡ fetched (replicate 16 7))
unfolding calculate_sector find_sector
write_read_data_example =
    write_read_data reader-IsTag 4 open_card refl refl refl refl refl refl
      (omega arith, omega arith) refl
