-- ===== src/Tests/StartCases.antt =====
-- The start of the program, and text in hexadecimal, at concrete inputs.
use programme_bee_gadz.Common.{
  ℕ, ◌≡◌, refl, false, none, some, List, [], ◌∷◌, arith, pos, codes, length,
}
use programme_bee_gadz.Printer.{array_to_string}
use programme_bee_gadz.Printer.Text.{hex_text, array_to_string_lem}
use programme_bee_gadz.Printer.Terminal.{Terminal}
use programme_bee_gadz.Python.{Interpreter}
use programme_bee_gadz.Config.{ConfigMode, Document}
use programme_bee_gadz.Application.Opening.{Boot, Reading, new_application}
use programme_bee_gadz.Application.Opening.Starting.{Outcome, new_application-Outcome}
use programme_bee_gadz.Tests.DriverCases.{Server, Bus, client, opener, start_state, raw}

array_to_string_lem_example :
    (array_to_string (0xde ∷ 0x07 ∷ []) ≡ hex_text (0xde ∷ 0x07 ∷ []))
    × (length (array_to_string (0xde ∷ 0x07 ∷ [])) ≡ 6)
array_to_string_lem_example =
    array_to_string_lem (0xde ∷ 0x07 ∷ []) (omega arith, (omega arith, tt))

-- A terminal without keys; what it shows is not looked at.
abbrev terminal : Terminal ℕ ℕ
terminal = record {
  initscr = λ t. t;
  raw = λ t. t;
  scrollok = λ b t. t;
  idlok = λ b t. t;
  start_color = λ t. t;
  endwin = λ t. t;
  init_pair = λ n f b t. t;
  nodelay = λ b t. t;
  echo = λ b t. t;
  getch = λ t. (none, t);
  seek_end = λ t. t;
  scan_float = λ t. (none, t);
  zero_float = 0;
}

-- An interpreter that runs every script.
abbrev python : Interpreter ℕ
python = record {
  set_program_name = λ name p. p;
  initialize = λ p. p;
  finalize = λ p. p;
  run_simple_string = λ script p. (pos 0, p);
  contents = λ name p. some (codes "import lcd");
}

abbrev document : Document ℕ
document = record {
  mode = codes "bar";
  mysql = (codes "s" ∷ codes "d" ∷ codes "u" ∷ codes "p" ∷ []) ∷ [];
  consos = (codes "beer", 150) ∷ [];
  ticket = codes "beer";
  pianss = codes "bar";
}

abbrev files : List ℕ → Reading ℕ
files name = record { document = some document; messages = [] }

abbrev boot : Boot ℕ ℕ Bus ℕ Server
boot = record { console = record { terminal = 0; python = 0 }; driver = start_state; raw = raw }

new_application-Outcome_example : Outcome terminal python opener client (
    new_application terminal python opener client ConfigMode.bar files false
      (codes "bee")
      none
      boot)
new_application-Outcome_example =
    new_application-Outcome terminal python opener client ConfigMode.bar files false (codes "bee")
      none boot (record { count = refl; context = λ more. (absurd (omega arith)) })
