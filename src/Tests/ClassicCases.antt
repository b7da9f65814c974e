-- ===== src/Tests/ClassicCases.antt =====
-- A tag that stays before the reader, as a concrete function in the place of libnfc: whole sectors and
-- cards that are read and written, and a payment that reaches the tag.
use programme_bee_gadz.Common.{
  ℕ, zero, suc, ◌+◌, ◌*◌, ◌/◌, ◌==◌, ==_refl, ◌≡◌, refl, Bool, true, false, some, none, Option,
  List, [], ◌∷◌, map, arith, ok, pos, ℤ, set, take, replicate, if◌then◌else◌, Bool-cases, inl, inr,
}
use programme_bee_gadz.Block.{Block, State, set_state}
use programme_bee_gadz.Sector.{Sector, new_sector}
use programme_bee_gadz.Mifare.{Libnfc, Target}
use programme_bee_gadz.Card.State.{Held}
use programme_bee_gadz.Card.Sectors.{read_sector, write_sector, read_all_card, write_all_card}
use programme_bee_gadz.Card.Tag.{IsMifare, IsClassic, IsClassicCard, Stands}
use programme_bee_gadz.Card.Tag.Fresh.{All, All-get, four_blocks-IsClassic}
use programme_bee_gadz.Card.Tag.Writing.{pushed, AreWritable}
use programme_bee_gadz.Card.Tag.Whole.{
  card_of, pushed_card, IsWritableCard, read_all_card-Stands, write_all_card-Stands,
}
use programme_bee_gadz.Card.Tag.Stored.{write_read_sector}
use programme_bee_gadz.Tests.Reader.{Tag, transmit, target, sixteen, is_open}
use programme_bee_gadz.Tests.CardCases.{printer}
use programme_bee_gadz.Tests.TagCases.{length-padded, take-padded}
use programme_bee_gadz.Tests.Desks.{named_block, credit_block, ticket_block, blank, with_blocks}

-- The tag's open sector and its blocks.
pub record Slot : Type 0 where
  pub open_sector : Option ℕ
  pub cells : ℕ → List ℕ

abbrev pub key : List ℕ
key = replicate 6 0xff

abbrev pub uid : List ℕ
uid = take 4 target.uid

abbrev as_tag : Slot → Tag
as_tag s = record { present = true; key = key; open_sector = s.open_sector; cells = s.cells }

-- A reader with the tag `target` before it, whose search for a UID has this result
abbrev pub reader_of : Target → (List ℕ → ℤ) → Libnfc Slot
reader_of target answer = record {
  set_property_bool = λ p v s. (pos 0, s);
  transceive_bytes = λ frame s.
      (let (r, rx, t) = transmit frame (as_tag s) in
        (r, rx, record { open_sector = t.open_sector; cells = t.cells }));
  select_passive_target = λ uid s. (answer uid, target, s);
}

abbrev pub standing : Libnfc Slot
standing = reader_of target (λ uid. pos 1)

abbrev pub content : Slot → ℕ → List ℕ
content s n = sixteen (s.cells n)

abbrev pub opened : Slot → ℕ → Bool
opened s n = is_open s.open_sector n

pub reader_of-IsMifare :
    (target : Target) (answer : List ℕ → ℤ) (uid : List ℕ)
    → IsMifare (reader_of target answer) content opened key uid
reader_of-IsMifare target answer uid = record {
  framing = λ d. (0, d, refl, λ n. refl, λ n. refl);
  opens = λ d n low. (
    0,
    [],
    record { open_sector = some (n / 4); cells = d.cells },
    refl,
    λ m. refl,
    ==_refl (n / 4),
  );
  reads = λ d n on. (length-padded 16 16 (d.cells n) (omega arith), d, rw on refl, λ m. refl);
  writes = λ d n bytes on can whole. (
    0,
    [],
    record d { cells = λ m. if m == n then bytes else d.cells m },
    rw on refl,
    λ m. elim (Bool-cases (m == n)) [
      | inl same ↦ rw same (take-padded 16 16 bytes whole)
      | inr other ↦ rw other refl
    ],
  );
}

pub standing-IsMifare : IsMifare standing content opened key uid
standing-IsMifare = reader_of-IsMifare target (λ uid. pos 1) uid

All-replicate : {A : Type 0} (P : A → Type 0) (n : ℕ) (x : A) → P x → All P (replicate n x)
All-replicate P zero x p = tt
All-replicate P (suc n) x p = (p, All-replicate P n x p)

-- A credit in memory that is not on the tag yet.
abbrev pub changed_block : Block
changed_block = set_state State.modified credit_block

abbrev pub sector_one : List Block
sector_one = named_block ∷ changed_block ∷ ticket_block ∷ blank ∷ []

abbrev fresh : Sector
fresh = new_sector false 4 false

abbrev pub card_blocks : List (List Block)
card_blocks = fresh.blocks ∷ sector_one ∷ replicate 14 fresh.blocks

abbrev pub slot : Slot
slot = record {
  open_sector = none;
  cells = λ n.
      if n == 4
      then named_block.data_bytes
      else if n == 6
      then ticket_block.data_bytes
      else replicate 16 0;
}

abbrev held : Held Slot
held = record {
  card = with_blocks sector_one;
  env = record { device = slot; infinite = true; printer = printer };
}

fresh-IsClassic : IsClassic fresh
fresh-IsClassic = four_blocks-IsClassic fresh refl (refl, (refl, (refl, (refl, tt)))) refl refl

pub held-IsClassicCard : IsClassicCard key uid (with_blocks sector_one)
held-IsClassicCard = record {
  keys = refl;
  one_key = refl;
  uid_is = refl;
  four_bytes = refl;
  param = refl;
  count = refl;
  classic = All-get IsClassic (with_blocks sector_one).sectors (
    four_blocks-IsClassic _ refl (refl, (refl, (refl, (refl, tt)))) refl refl,
    (
      four_blocks-IsClassic _ refl (refl, (refl, (refl, (refl, tt)))) refl refl,
      All-replicate IsClassic 14 fresh fresh-IsClassic,
    ),
  );
}

held-Stands : Stands content key uid (content slot) card_blocks held
held-Stands = record { card = held-IsClassicCard; memory = refl; on_tag = λ n. refl }

fresh-AreWritable : (n : ℕ) → AreWritable n fresh.blocks
fresh-AreWritable n = (λ e. cc, (λ e. cc, (λ e. cc, (λ e. cc, tt))))

fresh_card-IsWritableCard : (n i : ℕ) → IsWritableCard i (replicate n fresh.blocks)
fresh_card-IsWritableCard zero i = tt
fresh_card-IsWritableCard (suc n) i =
    (fresh-AreWritable (4 * i), fresh_card-IsWritableCard n (i + 1))

sector_one-AreWritable : AreWritable 4 sector_one
sector_one-AreWritable =
    (λ e. cc, (λ e. (omega arith, omega arith, omega arith), (λ e. cc, (λ e. cc, tt))))

card_blocks-IsWritableCard : IsWritableCard 0 card_blocks
card_blocks-IsWritableCard =
    (fresh-AreWritable 0, (sector_one-AreWritable, fresh_card-IsWritableCard 14 2))

write_read_sector_example :
    ((write_sector standing 1 held).0 ≡ ok true)
    × ((read_sector standing 1 (write_sector standing 1 held).1).0 ≡ ok true)
    × Stands content key uid
        (pushed 4 sector_one (content slot))
        (set card_blocks 1 (map (set_state State.clean) sector_one))
        (read_sector standing 1 (write_sector standing 1 held).1).1
write_read_sector_example =
    write_read_sector standing-IsMifare 1 held (omega arith) refl sector_one-AreWritable
      (λ e. refl, (λ e. cc, (λ e. refl, (λ e. refl, tt)))) held-Stands

read_all_card-Stands_example :
    ((read_all_card standing held).0 ≡ ok true)
    × Stands content key uid (content slot) (card_of (content slot)) (read_all_card standing held).1
read_all_card-Stands_example = read_all_card-Stands standing-IsMifare held held-Stands

write_all_card-Stands_example :
    ((write_all_card standing held).0 ≡ ok true)
    × Stands content key uid
        (pushed_card 0 card_blocks (content slot))
        card_blocks
        (write_all_card standing held).1
write_all_card-Stands_example =
    write_all_card-Stands standing-IsMifare held card_blocks-IsWritableCard held-Stands
