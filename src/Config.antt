-- ===== src/Config.antt =====
-- `class Config` (include/config_driver.h, src/config_driver.cpp): the drinks and their prices, the
-- keys of the cards, and the mode that the program is in. The JSON text is read by another project's
-- library: the constructor is given what that library finds in it.
use programme_bee_gadz.Common.{
  ℕ, suc, Bool, true, false, Option, none, some, List, [], ◌∷◌, codes, same_text, leb, length,
  get_elem?, if◌then◌else◌, replicate,
}
use programme_bee_gadz.Printer.Numerals.{decimal_of}

-- `enum Mode`; `unknown` stands for every other number, which a member that is not initialised may hold.
pub data ConfigMode : Type 0 where
  caisse bar kve admin unknown : ConfigMode

-- Whether the `switch` of `Application::create_mode` has a `case` for it
abbrev pub is_known : ConfigMode → Bool
is_known ConfigMode.caisse = true
is_known ConfigMode.bar = true
is_known ConfigMode.kve = true
is_known ConfigMode.admin = true
is_known ConfigMode.unknown = false

module _ (F : Type 0) where
  -- What the library reads of the file, with the defaults of `get` for what the file lacks.
  pub record Document : Type 0 where
    pub mode : List ℕ
    -- a row is server, database, user, password
    pub mysql : List (List (List ℕ))
    pub consos : List (List ℕ × F)
    pub ticket : List ℕ
    pub pianss : List ℕ

  pub record Config : Type 0 where
    -- `m_consos`
    pub consos : List (List ℕ × F)
    -- `m_config["ticket"]`, `m_config["pianss"]`
    pub ticket : List ℕ
    pub pianss : List ℕ
    -- `m_sql`
    pub sql : List (List (List ℕ))
    -- `m_keys`, `m_key`
    pub keys : List ℕ
    pub key : List ℕ
    -- `m_mode`
    pub mode : ConfigMode

-- The chain of comparisons of `name`; a name that it does not know leaves what `m_mode` held.
abbrev pub mode_of : List ℕ → ConfigMode → ConfigMode
mode_of name raw =
    if same_text name (codes "bar")
    then ConfigMode.bar
    else if same_text name (codes "caisse")
    then ConfigMode.caisse
    else if same_text name (codes "kve")
    then ConfigMode.kve
    else if same_text name (codes "admin")
    then ConfigMode.admin
    else raw

-- `std::to_string` of the index, or of -1
abbrev pub ticket_text : Option ℕ → List ℕ
ticket_text none = codes "-1"
ticket_text (some i) = decimal_of i

module _ {F : Type 0} where
  -- `std::find_if(…) - m_consos.begin()`, counted from `i`
  abbrev pub find_conso : ℕ → List ℕ → List (List ℕ × F) → Option ℕ
  find_conso i value [] = none
  find_conso i value (c ∷ consos) =
      let later = find_conso (suc i) value consos in if same_text c.0 value then some i else later

  -- `Config::Config`; `none` is a file that is not JSON, for which the constructor throws, and `raw`
  -- what the memory of `m_mode` held.
  unfoldable pub new_config : ConfigMode → Option (Document F) → Option (Config F)
  new_config raw none = none
  new_config raw (some d) = some (record {
    consos = d.consos;
    ticket = ticket_text (find_conso 0 d.ticket d.consos);
    pianss = d.pianss;
    sql = d.mysql;
    keys = replicate 6 0xff;
    key = replicate 6 0xff;
    mode = mode_of d.mode raw;
  })

  -- `Config::getConso`; `none` is the exception.
  unfoldable pub get_conso : ℕ → Config F → Option (List ℕ × F)
  get_conso nb c = if leb (length c.consos) nb then none else get_elem? c.consos nb

  -- `Config::getNbConso`
  abbrev pub get_nb_conso : Config F → ℕ
  get_nb_conso c = length c.consos

  -- `Config::setMode`
  abbrev pub set_mode : ConfigMode → Config F → Config F
  set_mode m c = record c { mode = m }

  -- `Config::getKeys`
  abbrev pub get_keys : Bool → Config F → List ℕ
  get_keys is_caisse c = if is_caisse then c.keys else c.key

  -- `Config::getSqlInfo`, which must be in range
  abbrev pub get_sql_info : ℕ → Config F → Option (List (List ℕ))
  get_sql_info nb c = get_elem? c.sql nb
