-- ===== src/Printer/Terminal.antt =====
-- The constructor, the destructor and the input of `class Printer` (src/print_driver.cpp). The terminal
-- (ncurses) and the Python interpreter are other projects' code, and parameters, over the types `T` and
-- `P` of their states.
use programme_bee_gadz.Common.{
  ℕ, Bool, true, false, not, Option, none, some, [], Action, ok, ◌>>=◌, ◌>>◌, pure, gets, modify,
  codes, is_negative,
}
use programme_bee_gadz.Printer.{Printer}
use programme_bee_gadz.Python.{Interpreter, run_file}

-- The calls of the terminal that the class makes; `F` are the processor's floats.
pub record Terminal (T F : Type 0) : Type 0 where
  -- `initscr`, `raw`, `scrollok`, `idlok`, `start_color`, `endwin`
  pub initscr : T → T
  pub raw : T → T
  pub scrollok : Bool → T → T
  pub idlok : Bool → T → T
  pub start_color : T → T
  pub endwin : T → T
  -- `init_pair`: a pair, its colour and that of its ground
  pub init_pair : ℕ → ℕ → ℕ → T → T
  -- `nodelay`, and `echo` or `noecho`
  pub nodelay : Bool → T → T
  pub echo : Bool → T → T
  -- `getch`; `none` is `ERR`
  pub getch : T → Option ℕ × T
  -- `fseek(stdin, 0, SEEK_END)`, and `scanw("%f", …)`, which finds a number or none
  pub seek_end : T → T
  pub scan_float : T → Option F × T
  pub zero_float : F

pub record Console (T P : Type 0) : Type 0 where
  pub terminal : T
  pub python : P

-- `COLOR_BLACK`, `COLOR_RED`, `COLOR_BLUE`, `COLOR_WHITE`
abbrev pub black : ℕ
black = 0

abbrev pub red : ℕ
red = 1

abbrev pub blue : ℕ
blue = 4

abbrev pub white : ℕ
white = 7

-- `getch() != ERR`
abbrev pub got_key : Option ℕ → Bool
got_key none = false
got_key (some key) = true

-- `tmp` after `scanw("%f", &tmp)`
abbrev pub scanned : {F : Type 0} → F → Option F → F
scanned tmp none = tmp
scanned tmp (some x) = x

module _ {T P : Type 0} where
  abbrev pub on_terminal : (T → T) → Action (Console T P) (Unit {0})
  on_terminal f = modify λ c. record c { terminal = f c.terminal }

  abbrev pub on_python : {A : Type 0} → Action P A → Action (Console T P) A
  on_python m c = let (r, p) = m c.python in (r, record c { python = p })

module _ {T P F : Type 0} (terminal : Terminal T F) where
  -- The calls of the constructor on the terminal
  unfoldable pub set_up : Action (Console T P) (Unit {0})
  set_up = do
    on_terminal terminal.initscr
    on_terminal terminal.raw
    on_terminal (terminal.scrollok true)
    on_terminal (terminal.idlok true)
    on_terminal terminal.start_color
    on_terminal (terminal.init_pair 1 red black)
    on_terminal (terminal.init_pair 2 blue black)
    on_terminal (terminal.init_pair 3 white black)

  -- `Printer::Printer`: an exception of `runFile` passes on.
  unfoldable pub new_printer : Interpreter P → Bool → Action (Console T P) Printer
  new_printer python is_debug = do
    set_up
    res ← on_python (run_file python (codes "lcd.py"))
    pure (record { is_debug = is_debug; has_lcd = not (is_negative res); output = [] })

  -- `Printer::~Printer`
  unfoldable pub delete_printer : Action (Console T P) (Unit {0})
  delete_printer = on_terminal terminal.endwin

  abbrev pub call_getch : Action (Console T P) (Option ℕ)
  call_getch c = let (key, t) = terminal.getch c.terminal in (ok key, record c { terminal = t })

  -- `Printer::getKeyPressedNB`
  unfoldable pub get_key_pressed_nb : Action (Console T P) (Option ℕ)
  get_key_pressed_nb = do
    on_terminal (terminal.nodelay true)
    on_terminal (terminal.echo false)
    call_getch

  -- `Printer::keyPressed`
  unfoldable pub key_pressed : Action (Console T P) Bool
  key_pressed = do
    on_terminal (terminal.nodelay true)
    on_terminal (terminal.echo false)
    key ← call_getch
    pure (got_key key)

  -- `Printer::getKeyPressed`
  unfoldable pub get_key_pressed : Action (Console T P) (Option ℕ)
  get_key_pressed = do
    on_terminal (terminal.nodelay false)
    on_terminal (terminal.echo false)
    call_getch

  -- `Printer::getFloat`
  unfoldable pub get_float : Action (Console T P) F
  get_float = do
    on_terminal terminal.seek_end
    on_terminal (terminal.nodelay false)
    on_terminal (terminal.echo true)
    t ← gets (λ c. c.terminal)
    let (x, t') = terminal.scan_float t
    on_terminal (λ _. t')
    pure (scanned terminal.zero_float x)
