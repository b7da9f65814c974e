-- ===== src/Application/Opening/Starting.antt =====
-- What the start of the program (src/application.cpp) leaves of the reader's driver: the constructor of
-- `class Application` with those of `class Mysql` and `class NfcDevice` in it.
use programme_bee_gadz.Common.{
  ℕ, zero, suc, ◌<◌, ◌≡◌, arith, refl, ◌∙◌, Bool, true, Bool-cases, codes, Option, none, some, List,
  [], ◌∷◌, ◌++◌, Action, Result, ok, threw, fault, ◌>>=◌, ◌>>◌, continue, pure, throw, in_range,
  length, Option-cases, inl, inr,
}
use programme_bee_gadz.Printer.{print_error}
use programme_bee_gadz.Printer.Terminal.{Terminal, delete_printer, new_printer}
use programme_bee_gadz.Python.{Interpreter, new_python}
use programme_bee_gadz.Mysql.{Account, Client, Mysql, new_mysql}
use programme_bee_gadz.NfcDevice.Opening.{Opener, Driver, new_device, delete_device}
use programme_bee_gadz.NfcDevice.Opening.Constructing.{
  IsCounted, new_device-made, new_device-refused,
}
use programme_bee_gadz.NfcDevice.Opening.Counting.{delete_device-IsCounted}
use programme_bee_gadz.Mode.Leaving.{Gives, then_Gives, after_Gives}
use programme_bee_gadz.Config.{Config, ConfigMode, is_known, new_config, get_sql_info}
use programme_bee_gadz.Application.Opening.{
  Boot, Application, Reading, on_console, set_printer, say_debug, on_raw, on_driver, recover,
  open_config, clean, connect_one, connect_from, need_database, new_application, account_of,
  config_name, create_mode,
}

module _ {T P W X L : Type 0} where
  -- The call leaves the shared members of the driver as they are.
  abbrev pub Keeps : {A : Type 0} → Action (Boot T P W X L) A → Type 0
  Keeps m =
      (b : Boot T P W X L)
      → ((m b).1.driver.instances ≡ b.driver.instances)
        × ((m b).1.driver.context ≡ b.driver.context)

  continue-Keeps :
      {A B : Type 0} (f : A → Action (Boot T P W X L) B)
      → ((a : A) → Keeps (f a))
      → (r : Result A × Boot T P W X L)
      → ((continue f r).1.driver.instances ≡ r.1.driver.instances)
        × ((continue f r).1.driver.context ≡ r.1.driver.context)
  continue-Keeps f keeps (ok a, b) = keeps a b
  continue-Keeps f keeps (threw, b) = (refl, refl)
  continue-Keeps f keeps (fault, b) = (refl, refl)

  then_Keeps :
      {A B : Type 0} (m : Action (Boot T P W X L) A) (f : A → Action (Boot T P W X L) B)
      → Keeps m
      → ((a : A) → Keeps (f a))
      → Keeps (m >>= f)
  then_Keeps m f keeps later b =
      let (i, c) = continue-Keeps f later (m b) in let (i', c') = keeps b in (i ∙ i', c ∙ c')

  recover-Keeps :
      {A : Type 0} (h m : Action (Boot T P W X L) A)
      → Keeps h
      → Keeps m
      → Keeps (λ b. recover h (m b))
  recover-Keeps {A} h m handles keeps b = by_end (m b) (keeps b)
    where
      by_end :
          (r : Result A × Boot T P W X L)
          → ((r.1.driver.instances ≡ b.driver.instances) × (r.1.driver.context ≡ b.driver.context))
          → ((recover h r).1.driver.instances ≡ b.driver.instances)
            × ((recover h r).1.driver.context ≡ b.driver.context)
      by_end (ok a, b') e = e
      by_end (threw, b') e = let (i, c) = handles b' in (i ∙ e.0, c ∙ e.1)
      by_end (fault, b') e = e

  in_range-Keeps : {A : Type 0} (o : Option A) → Keeps (in_range o)
  in_range-Keeps none b = (refl, refl)
  in_range-Keeps (some a) b = (refl, refl)

module _ {T P W X L R D F : Type 0} (terminal : Terminal T F) (python : Interpreter P)
    (nfc : Opener W X D) (client : Client L R) where
  clean-Keeps : Keeps {L = L} (clean terminal python nfc client none)
  unfolding clean
  clean-Keeps b = (refl, refl)

  read_config-Keeps :
      (raw_mode : ConfigMode) (file : Reading F)
      → Keeps {L = L} (λ b.
        recover (clean terminal python nfc client none >> throw) (open_config raw_mode file b))
  unfolding open_config
  read_config-Keeps raw_mode file =
      recover-Keeps _ (open_config raw_mode file)
        (then_Keeps (clean terminal python nfc client none) (λ u. throw) clean-Keeps
          (λ u b. (refl, refl)))
        (λ b. elim (Option-cases (new_config raw_mode file.document)) [
          | inl bad ↦ rw bad (refl, refl)
          | inr (config, good) ↦ rw good (refl, refl)
        ])

  connect_one-Keeps :
      (i : ℕ) (row : List (List ℕ)) → Keeps (connect_one terminal python nfc client i row)
  unfolding connect_one
  connect_one-Keeps i row =
      recover-Keeps _ _ (λ b. (refl, refl))
        (then_Keeps (in_range (account_of row)) _ (in_range-Keeps (account_of row)) (λ account.
          then_Keeps (on_raw (new_mysql client account)) (λ m. pure (m ∷ [])) (λ b. (refl, refl))
            (λ m b. (refl, refl))))

  connect_from-Keeps :
      (n i : ℕ) (config : Config F) → Keeps (connect_from terminal python nfc client n i config)
  unfolding connect_from
  connect_from-Keeps zero i config b = (refl, refl)
  connect_from-Keeps (suc n) i config b =
      then_Keeps (in_range (get_sql_info i config)) _ (in_range-Keeps (get_sql_info i config))
        (λ row.
          then_Keeps (connect_one terminal python nfc client i row) _ (connect_one-Keeps i row)
            (λ one.
              then_Keeps (connect_from terminal python nfc client n (suc i) config)
                (λ rest. pure (one ++ rest)) (connect_from-Keeps n (suc i) config)
                (λ rest b. (refl, refl))))
        b

  -- The database has accepted a connection with the account, which has been closed again.
  pub record IsConnected (m : Mysql L R) : Type 0 where
    pub accepted :
        (l : L) × ((client.real_connect m.account l).0 ≡ true)
        × (m.link ≡ client.close (client.real_connect m.account l).1)

  abbrev pub AllConnected : List (Mysql L R) → Type 0
  AllConnected [] = Unit
  AllConnected (m ∷ ms) = IsConnected m × AllConnected ms

  AllConnected-append :
      (ms ns : List (Mysql L R)) → AllConnected ms → AllConnected ns → AllConnected (ms ++ ns)
  AllConnected-append [] ns v w = w
  AllConnected-append (m ∷ ms) ns v w = (v.0, AllConnected-append ms ns v.1 w)

  new_mysql-IsConnected :
      (account : Account) (raw : L) → Gives (λ m l. IsConnected m) (new_mysql client account raw)
  unfolding new_mysql
  new_mysql-IsConnected account raw =
      let l = client.options (codes "option") (client.init raw) in
      elim (Bool-cases (client.real_connect account l).0) [
        | inl done ↦ rw done (record { accepted = (l, done, refl) })
        | inr failed ↦ rw failed tt
      ]

  on_raw-Gives :
      {A : Type 0} (Q : A → Type 0) (m : Action L A) (b : Boot T P W X L)
      → Gives (λ a l. Q a) (m b.raw)
      → Gives (λ a b. Q a) (on_raw m b)
  on_raw-Gives {A} Q m b v = by_end (m b.raw) v
    where
      by_end :
          (r : Result A × L)
          → Gives (λ a l. Q a) r
          → Gives (λ a b. Q a) (r.0, record b { raw = r.1 })
      by_end (ok a, l) v = v
      by_end (threw, l) v = tt
      by_end (fault, l) v = tt

  recover-Gives :
      {A : Type 0} (Q : A → Boot T P W X L → Type 0) (h : Action (Boot T P W X L) A)
      → ((b : Boot T P W X L) → Gives Q (h b))
      → (r : Result A × Boot T P W X L) → Gives Q r
      → Gives Q (recover h r)
  recover-Gives Q h handled (ok a, b) v = v
  recover-Gives Q h handled (threw, b) v = handled b
  recover-Gives Q h handled (fault, b) v = tt

  connect_one-AllConnected :
      (i : ℕ) (row : List (List ℕ)) (b : Boot T P W X L)
      → Gives (λ ms b. AllConnected ms) (connect_one terminal python nfc client i row b)
  unfolding connect_one
  connect_one-AllConnected i row b =
      recover-Gives (λ ms b. AllConnected ms) _ (λ b. tt) _
        (after_Gives (λ ms b. AllConnected ms) _
          (λ account b.
            then_Gives (λ m b. IsConnected m) (λ ms b. AllConnected ms) (λ m. pure (m ∷ []))
              (λ m b v. (v, tt)) (on_raw (new_mysql client account) b)
              (on_raw-Gives IsConnected (new_mysql client account) b
                (new_mysql-IsConnected account b.raw)))
          (in_range (account_of row) b))

  connect_from-AllConnected :
      (n i : ℕ) (config : Config F) (b : Boot T P W X L)
      → Gives (λ ms b. AllConnected ms) (connect_from terminal python nfc client n i config b)
  unfolding connect_from
  connect_from-AllConnected zero i config b = tt
  connect_from-AllConnected (suc n) i config b =
      after_Gives (λ ms b. AllConnected ms) _
        (λ row b.
          then_Gives (λ ms b. AllConnected ms) (λ ms b. AllConnected ms) _
            (λ one b v.
              then_Gives (λ ms b. AllConnected ms) (λ ms b. AllConnected ms)
                (λ rest. pure (one ++ rest)) (λ rest b w. AllConnected-append one rest v w)
                (connect_from terminal python nfc client n (suc i) config b)
                (connect_from-AllConnected n (suc i) config b))
            (connect_one terminal python nfc client i row b) (connect_one-AllConnected i row b))
        (in_range (get_sql_info i config) b)

  -- What the constructor leaves: one device is alive, in a counted driver; there are databases, and each
  -- has accepted a connection; and the mode that runs is the configuration's, and known. If it throws, no
  -- device is alive.
  pub record IsStarted (app : Application L R D F) (b : Boot T P W X L) : Type 0 where
    pub counted : IsCounted nfc b.driver (app.device ∷ [])
    pub database : 0 < length app.mysql
    pub connected : AllConnected app.mysql
    pub running : app.running ≡ app.config.mode
    pub known : is_known app.config.mode ≡ true

  abbrev pub Outcome : Result (Application L R D F) × Boot T P W X L → Type 0
  Outcome (ok app, b) = IsStarted app b
  Outcome (threw, b) = IsCounted nfc b.driver []
  Outcome (fault, b) = Unit

  abbrev Starts : Action (Boot T P W X L) (Application L R D F) → Type 0
  Starts m = (b : Boot T P W X L) → IsCounted nfc b.driver [] → Outcome (m b)

  kept-IsCounted :
      (b b' : Boot T P W X L)
      → ((b'.driver.instances ≡ b.driver.instances) × (b'.driver.context ≡ b.driver.context))
      → IsCounted nfc b.driver []
      → IsCounted nfc b'.driver []
  kept-IsCounted b b' same v = record {
    count = same.0 ∙ v.count;
    context = λ more. (absurd (omega arith));
  }

  then_Starts :
      {A : Type 0} (Q : A → Type 0) (m : Action (Boot T P W X L) A)
      (f : A → Action (Boot T P W X L) (Application L R D F))
      → Keeps m
      → ((b : Boot T P W X L) → Gives (λ a b. Q a) (m b))
      → ((a : A) → Q a → Starts (f a))
      → Starts (m >>= f)
  then_Starts {A} Q m f keeps gives later b v = by_end (m b) (keeps b) (gives b)
    where
      by_end :
          (r : Result A × Boot T P W X L)
          → ((r.1.driver.instances ≡ b.driver.instances) × (r.1.driver.context ≡ b.driver.context))
          → Gives (λ a b. Q a) r
          → Outcome (continue f r)
      by_end (ok a, b') e q = later a q b' (kept-IsCounted b b' e v)
      by_end (threw, b') e q = kept-IsCounted b b' e v
      by_end (fault, b') e q = tt

  -- A step of whose value nothing has to be known
  after_Starts :
      {A : Type 0} (m : Action (Boot T P W X L) A)
      (f : A → Action (Boot T P W X L) (Application L R D F))
      → Keeps m
      → ((a : A) → Starts (f a))
      → Starts (m >>= f)
  after_Starts {A} m f keeps later =
      then_Starts (λ a. Unit {0}) m f keeps (λ b. any (m b)) (λ a u. later a)
    where
      any : (r : Result A × Boot T P W X L) → Gives (λ a b. Unit {0}) r
      any (ok a, b) = tt
      any (threw, b) = tt
      any (fault, b) = tt

  -- The last steps: the reader is opened, and the mode is made.
  make_mode : Config F → List (Mysql L R) → D → Action (Boot T P W X L) (Application L R D F)
  make_mode config ms device = create_mode terminal python nfc client config device >>= λ running.
      pure (record { config = config; mysql = ms; device = device; running = running })

  -- `clean` and `throw` after a mode that is not known
  thrown :
      (f : ConfigMode → Action (Boot T P W X L) (Application L R D F))
      (r : Result (Unit {0}) × Driver W X) (b : Boot T P W X L)
      → IsCounted nfc r.1 []
      → Outcome (continue f (continue (λ u. throw) (r.0, record b { driver = r.1 })))
  thrown f (ok u, s) b v = v
  thrown f (threw, s) b v = v
  thrown f (fault, s) b v = tt

  make_mode-Outcome :
      (config : Config F) (ms : List (Mysql L R)) (d : D) (b : Boot T P W X L)
      → 0 < length ms
      → AllConnected ms
      → IsCounted nfc b.driver (d ∷ [])
      → Outcome (make_mode config ms d b)
  unfolding make_mode create_mode clean delete_printer
  make_mode-Outcome config ms d b some_there all v = elim (Bool-cases (is_known config.mode)) [
    | inl known ↦ rw known (record {
      counted = v;
      database = some_there;
      connected = all;
      running = refl;
      known = known;
    })
    | inr unknown ↦
        let s = record b.driver {
          printer = print_error (codes "Error, mode not reconized") b.driver.printer;
        } in
        let closed =
          delete_device-IsCounted nfc s [] [] d (record { count = v.count; context = v.context }) in
        rw unknown (
          thrown _ (delete_device nfc d s)
            (record b { console = (delete_printer terminal b.console).1; driver = s }) closed)
  ]

  last_step : Config F → List (Mysql L R) → Action (Boot T P W X L) (Application L R D F)
  last_step config ms =
      (λ b. recover (clean terminal python nfc client none >> throw) (on_driver (new_device nfc) b))
      >>= make_mode config ms

  last_step-Starts :
      (config : Config F) (ms : List (Mysql L R))
      → 0 < length ms
      → AllConnected ms
      → Starts (last_step config ms)
  unfolding last_step clean delete_printer
  last_step-Starts config ms some_there all b v = by_end (new_device nfc b.driver) refl
    where
      by_end :
          (r : Result D × Driver W X)
          → new_device nfc b.driver ≡ r
          → Outcome (last_step config ms b)
      by_end (ok d, s) e = rw e (
          make_mode-Outcome config ms d (record b { driver = s }) some_there all
            (new_device-made nfc b.driver s d [] v e))
      by_end (threw, s) e = rw e (new_device-refused nfc b.driver s [] v e)
      by_end (fault, s) e = rw e tt

  after_databases :
      (config : Config F) (ms : List (Mysql L R))
      → AllConnected ms
      → Starts (need_database terminal python nfc client ms >> last_step config ms)
  unfolding need_database clean delete_printer
  after_databases config [] all b v = record {
    count = v.count;
    context = λ more. (absurd (omega arith));
  }
  after_databases config (m ∷ ms) all b v = last_step-Starts config (m ∷ ms) (omega arith) all b v

-- The start of the program, from a driver without devices. If the constructor returns, there is at least
-- one database, each of which has accepted a connection with its account, one device is alive and counted,
-- the context is there, and the mode that runs is the configuration's, which is one of the four; if it
-- throws, no device is counted. For any configuration file, value of the uninitialised mode, terminal,
-- databases and reader.
pub new_application-Outcome :
    {T P W X L R D F : Type 0} (terminal : Terminal T F) (python : Interpreter P)
    (nfc : Opener W X D) (client : Client L R) (raw_mode : ConfigMode) (read : List ℕ → Reading F)
    (is_debug : Bool) (argv0 : List ℕ) (argv1 : Option (List ℕ)) (b : Boot T P W X L)
    → IsCounted nfc b.driver []
    → Outcome terminal python nfc client
        (new_application terminal python nfc client raw_mode read is_debug argv0 argv1 b)
unfolding new_application last_step make_mode
new_application-Outcome terminal python nfc client raw_mode read is_debug argv0 argv1 b v =
    let started = record b {
      console = record b.console { python = new_python python argv0 b.console.python };
    } in
    after_Starts terminal python nfc client (on_console (new_printer terminal python is_debug)) _
      (λ b. (refl, refl))
      (λ printer b v.
        let b' = (say_debug argv0 (set_printer printer b).1).1 in
        after_Starts terminal python nfc client
          (λ b.
            recover (clean terminal python nfc client none >> throw)
              (open_config raw_mode (read (config_name argv1)) b))
          _ (read_config-Keeps terminal python nfc client raw_mode (read (config_name argv1)))
          (λ config.
            then_Starts terminal python nfc client (AllConnected terminal python nfc client)
              (connect_from terminal python nfc client (length config.sql) 0 config) _
              (connect_from-Keeps terminal python nfc client (length config.sql) 0 config)
              (connect_from-AllConnected terminal python nfc client (length config.sql) 0 config)
              (λ ms all. after_databases terminal python nfc client config ms all))
          b' (kept-IsCounted terminal python nfc client b b' (refl, refl) v))
      started (kept-IsCounted terminal python nfc client b started (refl, refl) v)
