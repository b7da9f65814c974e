-- ===== src/Tests/ModeCases.antt =====
-- The modes at concrete inputs: a DEBIT card before the reader of Tests/Reader.antt, and sums in cents
-- in the place of the processor's floats.
use programme_bee_gadz.Common.{
  ℕ, suc, ◌≡◌, inr, refl, true, false, none, some, [], ◌∷◌, arith, ok, replicate, codes,
  if◌then◌else◌, get_elem?,
}
use programme_bee_gadz.Block.{Block}
use programme_bee_gadz.Printer.Numerals.{decimal_of}
use programme_bee_gadz.Admin.{ticket_id}
use programme_bee_gadz.Admin.Tickets.{ticket_id_lem}
use programme_bee_gadz.Config.{Document, new_config, ConfigMode, get_conso}
use programme_bee_gadz.Mode.{is_debit, get_credit, has_ticket, get_ticket, create_debit}
use programme_bee_gadz.Mode.Members.{World}
use programme_bee_gadz.Mode.Memory.{Holds}
use programme_bee_gadz.Mode.Kinds.{credit_in, create_debit_lem}
use programme_bee_gadz.Bar.{Orders, BarRun, get_price, price_from, decrement_ticket, pay}
use programme_bee_gadz.Bar.Money.{credit_left, decrement_ticket_lem}
use programme_bee_gadz.Bar.Amounts.{IsOrders}
use programme_bee_gadz.Bar.Payment.{pay_lem}
use programme_bee_gadz.Bar.Round.{bar_round}
use programme_bee_gadz.Bar.Invariant.{HasRoom}
use programme_bee_gadz.Bar.Invariant.Runs.{began, round, Run-HasRoom}
use programme_bee_gadz.Kve.Tickets.{ticket_after_use}
use programme_bee_gadz.Tests.Reader.{Tag, reader}
use programme_bee_gadz.Tests.Desks.{
  Cents, of_value, cents, cents-IsFloatUnit, named_block, credit_block, ticket_block, config, blank,
  blank_desk, debit_desk,
}

create_debit_lem_example :
    (is_debit (create_debit reader cents blank_desk).1
      ≡ (ok true, (create_debit reader cents blank_desk).1))
    × (get_credit cents (create_debit reader cents blank_desk).1
        ≡ (ok (of_value 0), (create_debit reader cents blank_desk).1))
    × (has_ticket (create_debit reader cents blank_desk).1
        ≡ (ok false, (create_debit reader cents blank_desk).1))
create_debit_lem_example =
    create_debit_lem reader cents cents-IsFloatUnit blank_desk blank blank blank (blank ∷ []) refl
      refl refl refl

decrement_ticket_lem_example :
    (b2' : Block) × Holds
      (decrement_ticket reader debit_desk).1
      (named_block ∷ credit_block ∷ b2' ∷ blank ∷ [])
    × (get_elem? b2'.data_bytes 0 ≡ some 0)
    × ((i : ℕ) → get_elem? b2'.data_bytes (suc i) ≡ get_elem? ticket_block.data_bytes (suc i))
decrement_ticket_lem_example =
    decrement_ticket_lem reader debit_desk named_block credit_block ticket_block (blank ∷ []) refl
      refl

abbrev orders : Orders
orders = (0, 2) ∷ (1, 1) ∷ []

orders-IsOrders : IsOrders orders
orders-IsOrders = (refl, omega arith, omega arith, (refl, omega arith, omega arith, tt))

abbrev bar_run : BarRun Tag Cents
bar_run = record { desk = debit_desk; conso = (0, 2) ∷ []; time = 0 }

pay_lem_example :
    (b1' : Block) × Holds
      (pay reader cents 5 bar_run).1.desk
      (named_block ∷ b1' ∷ ticket_block ∷ blank ∷ [])
    × (credit_in cents b1' ≡ (
        if cents.at_least (of_value 500) (of_value 300)
        then credit_left cents (of_value 500) (of_value 300)
        else of_value 500))
unfolding get_price price_from get_conso
pay_lem_example =
    pay_lem reader cents cents-IsFloatUnit 5 bar_run named_block credit_block ticket_block
      (blank ∷ []) refl refl refl refl refl (inr refl) refl

ticket_after_use_example : (get_ticket (decrement_ticket reader debit_desk).1).0 ≡ ok 0
ticket_after_use_example =
    ticket_after_use reader debit_desk named_block credit_block ticket_block (blank ∷ []) refl refl
      refl refl

abbrev world : World Cents
world = record {
  times = λ n. n;
  keys = λ n. none;
  choices = λ n. 0;
  amounts = λ n. of_value 100;
  raw = replicate 16 0;
}

abbrev new_run : BarRun Tag Cents
new_run = record { desk = debit_desk; conso = []; time = 0 }

Run-HasRoom_example :
    HasRoom 2 (bar_round reader cents world (bar_round reader cents world new_run).1).1.conso
Run-HasRoom_example =
    Run-HasRoom reader cents (round world (round world (began new_run refl))) (omega arith)

abbrev document : Document Cents
document = record {
  mode = codes "bar";
  mysql = [];
  consos = config.consos;
  ticket = codes "soda";
  pianss = codes "bar";
}

ticket_id_lem_example :
    (price : Cents) × (get_conso (ticket_id config.ticket) config ≡ some (codes "soda", price))
unfolding new_config decimal_of
ticket_id_lem_example = ticket_id_lem ConfigMode.admin document config refl refl (omega arith)
