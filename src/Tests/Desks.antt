-- ===== src/Tests/Desks.antt =====
-- What the tests of the modes start from: sums in cents in the place of the processor's floats, the
-- blocks of a DEBIT card, and a mode that holds it.
use programme_bee_gadz.Common.{
  ℕ, ◌+◌, ◌*◌, ◌-◌, ◌/◌, ◌%◌, ◌==◌, refl, true, false, none, some, List, [], ◌∷◌, replicate, codes,
  leb, ltb, set,
}
use programme_bee_gadz.Block.{Block, State, new_block}
use programme_bee_gadz.Printer.Numerals.{decimal_of}
use programme_bee_gadz.Card.State.{Card}
use programme_bee_gadz.Config.{Config, ConfigMode}
use programme_bee_gadz.Mode.Members.{FloatUnit, IsFloatUnit, Desk}
use programme_bee_gadz.Tests.Reader.{Tag}
use programme_bee_gadz.Tests.CardCases.{card, printer, tag}

-- A sum in cents as its four bytes.
pub record Cents : Type 0 where
  pub b0 : ℕ
  pub b1 : ℕ
  pub b2 : ℕ
  pub b3 : ℕ

abbrev pub value : Cents → ℕ
value c = c.b0 + 256 * (c.b1 + 256 * (c.b2 + 256 * c.b3))

abbrev pub of_value : ℕ → Cents
of_value n = record {
  b0 = n % 256;
  b1 = n / 256 % 256;
  b2 = n / 65536 % 256;
  b3 = n / 16777216 % 256;
}

abbrev pub of_bytes4 : List ℕ → Cents
of_bytes4 (a ∷ b ∷ c ∷ d ∷ rest) = record { b0 = a; b1 = b; b2 = c; b3 = d }
of_bytes4 bytes = of_value 0

abbrev pub cents : FloatUnit Cents
cents = record {
  zero_float = of_value 0;
  add = λ x y. of_value (value x + value y);
  subtract = λ x y. of_value (value x - value y);
  times = λ x n. of_value (value x * n);
  at_least = λ x y. leb (value y) (value x);
  is_zero = λ x. value x == 0;
  exceeds = λ x n. ltb (100 * n) (value x);
  to_memory = λ x. x.b0 ∷ x.b1 ∷ x.b2 ∷ x.b3 ∷ [];
  of_memory = of_bytes4;
  shown = λ x. decimal_of (value x);
  fixed = λ x. decimal_of (value x);
}

pub cents-IsFloatUnit : IsFloatUnit cents
cents-IsFloatUnit = record { four_bytes = λ x. refl; of_to_memory = λ x. refl }

abbrev pub named_block : Block
named_block = record { data_bytes = 68 ∷ 69 ∷ 66 ∷ 73 ∷ 84 ∷ replicate 11 0; state = State.clean }

-- 5.00, and one ticket for drink 1
abbrev pub credit_block : Block
credit_block = record { data_bytes = 244 ∷ 1 ∷ replicate 14 0; state = State.clean }

abbrev pub ticket_block : Block
ticket_block = record { data_bytes = 1 ∷ 1 ∷ replicate 14 0; state = State.clean }

abbrev pub with_blocks : List Block → Card
with_blocks blocks = record card {
  sectors =
      set card.sectors 1
        (record { blocks = blocks; key = replicate 6 0xff; is_trailer = false; key_b = false });
}

abbrev pub config : Config Cents
config = record {
  consos = (codes "beer", of_value 150) ∷ (codes "soda", of_value 100) ∷ [];
  ticket = codes "1";
  pianss = codes "bar";
  sql = [];
  keys = replicate 6 0xff;
  key = replicate 6 0xff;
  mode = ConfigMode.bar;
}

abbrev pub desk_on : {D : Type 0} → D → List Block → Desk D Cents
desk_on d blocks = record {
  env = record { device = d; infinite = true; printer = printer };
  config = config;
  screen = replicate 4 [];
  requests = [];
  card = some (with_blocks blocks);
  read = true;
  ticks = 0;
  strokes = 0;
  picks = 0;
  entries = 0;
}

abbrev pub desk : List Block → Desk Tag Cents
desk blocks = desk_on (tag (replicate 6 0xff) true) blocks

abbrev pub blank : Block
blank = new_block none

abbrev pub blank_desk : Desk Tag Cents
blank_desk = desk (blank ∷ blank ∷ blank ∷ blank ∷ [])

abbrev pub debit_desk : Desk Tag Cents
debit_desk = desk (named_block ∷ credit_block ∷ ticket_block ∷ blank ∷ [])
