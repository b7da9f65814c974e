-- ===== src/Application/Opening.antt =====
-- The constructor and the destructor of `class Application` (src/application.cpp), and `main`
-- (src/main.cpp): the objects that the program starts with. The wait for a key after an error is left
-- out.
pub mod Starting
use programme_bee_gadz.Common.{
  ℕ, zero, suc, ◌+◌, Bool, true, false, Option, none, some, List, [], ◌∷◌, ◌++◌, Action, Result, ok,
  threw, fault, ◌>>=◌, ◌>>◌, pure, throw, gets, modify, in_range, codes, same_text, if◌then◌else◌,
  length, ◌==◌,
}
use programme_bee_gadz.Printer.{Printer, print_debug, print_error}
use programme_bee_gadz.Printer.Numerals.{decimal_of}
use programme_bee_gadz.Printer.Terminal.{Terminal, Console, new_printer, delete_printer}
use programme_bee_gadz.Python.{Interpreter, new_python}
use programme_bee_gadz.Mysql.{Account, Client, Mysql, new_mysql}
use programme_bee_gadz.NfcDevice.Opening.{Opener, Driver, new_device, delete_device}
use programme_bee_gadz.Config.{Config, ConfigMode, is_known, Document, new_config, get_sql_info}

-- What the constructor works in; `*m_printer` is the printer of the driver.
pub record Boot (T P W X L : Type 0) : Type 0 where
  pub console : Console T P
  pub driver : Driver W X
  -- the memory that a new `MYSQL` object takes
  pub raw : L

-- The members of the object
pub record Application (L R D F : Type 0) : Type 0 where
  -- `*m_config`
  pub config : Config F
  -- `m_mysql`
  pub mysql : List (Mysql L R)
  -- `m_nfc`
  pub device : D
  -- the class of `*m_mode`
  pub running : ConfigMode

-- What the JSON library makes of a file: its values, or the messages of the reader.
pub record Reading (F : Type 0) : Type 0 where
  pub document : Option (Document F)
  pub messages : List ℕ

-- `argv1 ? argv1 : "config.txt"`
abbrev pub config_name : Option (List ℕ) → List ℕ
config_name none = codes "config.txt"
config_name (some name) = name

-- A row of the configuration as the four parts of an account
unfoldable pub account_of : List (List ℕ) → Option Account
account_of (server ∷ db ∷ user ∷ passwd ∷ []) =
    some (record { server = server; db = db; user = user; passwd = passwd })
account_of row = none

module _ {T P W X L : Type 0} where
  abbrev pub on_console : {A : Type 0} → Action (Console T P) A → Action (Boot T P W X L) A
  on_console m b = let (r, c) = m b.console in (r, record b { console = c })

  abbrev pub on_driver : {A : Type 0} → Action (Driver W X) A → Action (Boot T P W X L) A
  on_driver m b = let (r, d) = m b.driver in (r, record b { driver = d })

  abbrev pub on_raw : {A : Type 0} → Action L A → Action (Boot T P W X L) A
  on_raw m b = let (r, l) = m b.raw in (r, record b { raw = l })

  abbrev pub set_printer : Printer → Action (Boot T P W X L) (Unit {0})
  set_printer p = modify λ b. record b { driver = record b.driver { printer = p } }

  abbrev pub say_debug : List ℕ → Action (Boot T P W X L) (Unit {0})
  say_debug m =
      modify λ b. record b { driver = record b.driver { printer = print_debug m b.driver.printer } }

  abbrev pub say_error : List ℕ → Action (Boot T P W X L) (Unit {0})
  say_error m =
      modify λ b. record b { driver = record b.driver { printer = print_error m b.driver.printer } }

  -- `catch (std::exception &e) { …; throw; }`, and a `catch` that goes on with a value
  abbrev pub recover :
      {A : Type 0}
      → Action (Boot T P W X L) A
      → Result A × Boot T P W X L
      → Result A × Boot T P W X L
  recover h (ok a, b) = (ok a, b)
  recover h (threw, b) = h b
  recover h (fault, b) = (fault, b)

  module _ {F : Type 0} where
    -- `Config::Config`, with the messages of a file that cannot be read; `raw_mode` is what the memory
    -- of `m_mode` held.
    unfoldable pub open_config : ConfigMode → Reading F → Action (Boot T P W X L) (Config F)
    open_config raw_mode file = found (new_config raw_mode file.document)
      where
        found : Option (Config F) → Action (Boot T P W X L) (Config F)
        found (some config) = pure config
        found none = do
          say_error (codes "Error while reading config file !")
          say_error file.messages
          throw

module _ {T P W X L R D F : Type 0} (terminal : Terminal T F) (python : Interpreter P)
    (nfc : Opener W X D) (client : Client L R) where
  -- `Application::clean`, of the objects that there are
  unfoldable pub clean : Option D → Action (Boot T P W X L) (Unit {0})
  clean none = on_console (delete_printer terminal)
  clean (some d) = do on_console (delete_printer terminal); on_driver (delete_device nfc d)

  -- `Application::create_mode`: the class of the object, by the mode of the configuration
  unfoldable pub create_mode : Config F → D → Action (Boot T P W X L) ConfigMode
  create_mode config device =
      if is_known config.mode
      then pure config.mode
      else (do say_error (codes "Error, mode not reconized"); clean (some device); throw)

  -- `new Mysql(m_config->getSqlInfo(i))`, and the message if it throws
  unfoldable pub connect_one : ℕ → List (List ℕ) → Action (Boot T P W X L) (List (Mysql L R))
  connect_one i row b =
      recover
        (do
          say_error (codes "Error while connecting to mysql database with config " ++ decimal_of i)
          pure [])
        ((do
          account ← in_range (account_of row)
          m ← on_raw (new_mysql client account)
          pure (m ∷ []))
          b)

  -- The loop over the configuration's databases, with those left, from `i` on
  unfoldable pub connect_from : ℕ → ℕ → Config F → Action (Boot T P W X L) (List (Mysql L R))
  connect_from zero i config = pure []
  connect_from (suc n) i config = do
    row ← in_range (get_sql_info i config)
    one ← connect_one i row
    rest ← connect_from n (suc i) config
    pure (one ++ rest)

  -- `if (!m_mysql.size())`
  unfoldable pub need_database : List (Mysql L R) → Action (Boot T P W X L) (Unit {0})
  need_database [] = do say_error (codes "Error while connecting to database!"); clean none; throw
  need_database (m ∷ ms) = pure tt

  -- `Application::Application`; `read` is the JSON library's reading of a file.
  unfoldable pub new_application :
      ConfigMode
      → (List ℕ → Reading F)
      → Bool
      → List ℕ
      → Option (List ℕ)
      → Action (Boot T P W X L) (Application L R D F)
  new_application raw_mode read is_debug argv0 argv1 = do
    modify (λ b. record b {
      console = record b.console { python = new_python python argv0 b.console.python };
    })
    printer ← on_console (new_printer terminal python is_debug)
    set_printer printer
    say_debug argv0
    config ←
        (λ b. recover (clean none >> throw) (open_config raw_mode (read (config_name argv1)) b))
    mysql ← connect_from (length config.sql) 0 config
    need_database mysql
    device ← (λ b. recover (clean none >> throw) (on_driver (new_device nfc) b))
    running ← create_mode config device
    pure (record { config = config; mysql = mysql; device = device; running = running })

  -- `Application::~Application`
  unfoldable pub delete_application : Application L R D F → Action (Boot T P W X L) (Unit {0})
  delete_application app = clean (some app.device)

-- `args.find("-d") != args.end()` in `main`
abbrev pub wants_debug : List (List ℕ) → Bool
wants_debug [] = false
wants_debug (arg ∷ args) = if same_text arg (codes "-d") then true else wants_debug args
