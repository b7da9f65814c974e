-- ===== src/Printer.antt =====
-- `class Printer` (include/print_driver.h, src/print_driver.cpp): the messages on the terminal and
-- the commands to the LCD, kept in the order latest first. The terminal and the Python interpreter
-- that drives the LCD are other projects' code: what is sent to them is recorded.
pub mod Numerals
pub mod Terminal
pub mod Text
use Numerals.{hex_of, decimal_of, hex_pair}
use programme_bee_gadz.Common.{
  ℕ, zero, suc, ◌+◌, Bool, true, false, List, [], ◌∷◌, ◌++◌, codes, if◌then◌else◌, replicate,
}

-- `enum Type {INFO, ERROR, DEBUG}`
pub data MessageType : Type 0 where
  info error debug : MessageType

-- What reaches the terminal or the LCD.
pub data Output : Type 0 where
  -- `attron(COLOR_PAIR(colour))`, then `printw`
  printed : (colour : ℕ) → (text : List ℕ) → Output
  -- a line of Python that is run
  script : (text : List ℕ) → Output
  -- `clear()`
  cleared : Output

pub record Printer : Type 0 where
  -- `m_debug`
  pub is_debug : Bool
  -- `m_lcd`
  pub has_lcd : Bool
  pub output : List Output

abbrev pub emit : Output → Printer → Printer
emit o p = record p { output = o ∷ p.output }

-- `std::endl`
abbrev pub end_line : List ℕ
end_line = 10 ∷ []

-- `Printer::printMessage`
unfoldable pub print_message : MessageType → List ℕ → Printer → Printer
print_message MessageType.error m p =
    emit (Output.printed 1 (codes "ERROR : " ++ (m ++ end_line))) p
print_message MessageType.debug m p =
    emit (Output.printed 2 (if p.is_debug then codes "DEBUG : " ++ (m ++ end_line) else [])) p
print_message MessageType.info m p = emit (Output.printed 3 (codes "INFO : " ++ (m ++ end_line))) p

-- `Printer::printDebug`
abbrev pub print_debug : List ℕ → Printer → Printer
print_debug = print_message MessageType.debug

-- `Printer::printError`
abbrev pub print_error : List ℕ → Printer → Printer
print_error = print_message MessageType.error

-- `Printer::printInfo`
abbrev pub print_info : List ℕ → Printer → Printer
print_info = print_message MessageType.info

-- `m_python->runScript` where there is an LCD
abbrev pub run_script : List ℕ → Printer → Printer
run_script text p = if p.has_lcd then emit (Output.script text) p else p

-- `Printer::printLCD`
unfoldable pub print_lcd : List ℕ → ℕ → Printer → Printer
print_lcd message line = run_script (
    codes "lcd.lcd_display_string(\""
    ++ (message ++ (codes "\", " ++ (decimal_of line ++ codes ")"))))

-- `Printer::clearLine`
unfoldable pub clear_line : ℕ → Printer → Printer
clear_line line =
    run_script (codes "lcd.lcd_display_string(\" \" * 20, " ++ (decimal_of line ++ codes ")"))

-- `Printer::clearScreen`
unfoldable pub clear_screen : Printer → Printer
clear_screen p = run_script (codes "lcd.lcd_clear()") (emit Output.cleared p)

-- `Printer::arrayToString<uint8_t>`, at the width 2 that every caller takes
unfoldable pub array_to_string : List ℕ → List ℕ
array_to_string [] = []
array_to_string (b ∷ bs) = hex_pair b ++ (b' ' ∷ array_to_string bs)
