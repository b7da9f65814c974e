-- ===== src/Tests/ScreenCases.antt =====
-- Lines on the screen, with a clock that ticks at each reading.
use programme_bee_gadz.Common.{
  ℕ, suc, true, false, ◌⊎◌, ◌≡◌, refl, none, [], ◌∷◌, arith, codes, replicate, get_or,
}
use programme_bee_gadz.Mode.Members.{Line, World, Desk}
use programme_bee_gadz.Mode.Screen.{shown_at}
use programme_bee_gadz.Mode.Screen.Lcd.{lcd_script, Emits}
use programme_bee_gadz.Mode.Screen.Shown.{prints, line_is_shown}
use programme_bee_gadz.Tests.Reader.{Tag}
use programme_bee_gadz.Tests.Desks.{Cents, of_value, debit_desk}

abbrev ticking : World Cents
ticking = record {
  times = λ n. n;
  keys = λ n. none;
  choices = λ n. 0;
  amounts = λ n. of_value 0;
  raw = replicate 16 0;
}

abbrev hello : Line
hello = record { message = codes "BONJOUR"; time = 3; printed = none }

abbrev thanks : Line
thanks = record { message = codes "MERCI"; time = 0; printed = none }

abbrev waiting : Desk Tag Cents
waiting = record debit_desk {
  env = record debit_desk.env {
    printer = record { is_debug = false; has_lcd = true; output = [] };
  };
  screen = [] ∷ (hello ∷ thanks ∷ []) ∷ [] ∷ [] ∷ [];
}

line_is_shown_example :
    (n : ℕ) × (t : ℕ) × (get_or (prints ticking (suc n) waiting).screen 1 []
      ≡ shown_at t thanks ∷ [])
    × ((true ≡ false)
        ⊎ Emits
            (lcd_script (codes "MERCI") 1)
            (prints ticking n waiting).env.printer
            (prints ticking (suc n) waiting).env.printer)
line_is_shown_example =
    line_is_shown ticking waiting refl 1 (omega arith) (λ b. (b, λ j h. h)) (hello ∷ []) thanks []
      refl refl
