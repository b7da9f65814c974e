-- ===== src/Mode.antt =====
-- `class Mode` (include/mode.h, src/mode.cpp): what the modes do with a card and with the screen.
pub mod Members
pub mod Reader
pub mod Memory
pub mod Kinds
pub mod OnTag
pub mod Aside
pub mod Laid
pub mod Leaving
pub mod Screen
use programme_bee_gadz.Common.{
  ℕ, zero, suc, ◌+◌, ◌-◌, ◌%◌, ◌^◌, ◌≤◌, ◌<◌, ◌==◌, Bool, true, false, not, ◌&&◌, Option, none,
  some, List, [], ◌∷◌, ◌++◌, Action, Result, ok, threw, fault, ◌>>=◌, ◌>>◌, pure, gets, modify,
  in_range, catch, codes, same_text, if◌then◌else◌, set, get_or, get_elem?, take, length, leb, ltb,
  write_at, for_below,
}
use programme_bee_gadz.Block.{Block, State, get_byte, set_byte, set_state, memory}
use programme_bee_gadz.Printer.{Printer, print_lcd, clear_line}
use programme_bee_gadz.Mifare.{Libnfc}
use programme_bee_gadz.NfcDevice.{Env}
use programme_bee_gadz.Card.State.{Card, Held}
use programme_bee_gadz.Card.Commands.{the_block, put_block}
use programme_bee_gadz.Card.Sectors.{write_sector}
use programme_bee_gadz.Config.{Config, ConfigMode, set_mode}
use programme_bee_gadz.Mode.Members.{
  FloatUnit, Line, World, Desk, on_env, on_card, show_info, show_error, show_debug, request, clock,
}

-- The bytes before the first zero, which a `std::string` is made of.
abbrev pub c_string : List ℕ → List ℕ
c_string [] = []
c_string (b ∷ bytes) = let rest = c_string bytes in if b == 0 then [] else b ∷ rest

-- `name[i]` for each `i`, then a zero
abbrev pub write_name : List ℕ → Block → Block
write_name name b =
    set_byte (length name) 0 (for_below (length name) (λ i t. set_byte i (get_or name i 0) t) b)

module _ {D : Type 0} where
  -- A change of `card[1][b]`
  abbrev pub change_block : ℕ → (Block → Block) → Action (Held D) (Unit {0})
  change_block b f = do x ← the_block 1 b; put_block 1 b (f x)

  -- `card[1][b].setState(Block::MODIFIED)`
  abbrev pub mark : ℕ → Action (Held D) (Unit {0})
  mark b = change_block b (set_state State.modified)

module _ {D F : Type 0} where
  -- `card[1][b]`
  abbrev pub read_block : ℕ → Action (Desk D F) Block
  read_block b = on_card (the_block 1 b)

  -- `Mode::testCard`
  unfoldable pub test_card : List ℕ → Action (Desk D F) Bool
  test_card str = do b ← read_block 0; pure (same_text str (c_string (memory b)))

  -- `Mode::isAdmin`
  unfoldable pub is_admin : Action (Desk D F) Bool
  is_admin = do
    t ← test_card (codes "ADMIN")
    if t
        then (modify (λ k. record k { config = set_mode ConfigMode.admin k.config }) >> pure true)
        else pure false

  -- `Mode::isSOS`, `Mode::isDebit`, `Mode::isConso`
  unfoldable pub is_sos : Action (Desk D F) Bool
  is_sos = test_card (codes "SOS")

  unfoldable pub is_debit : Action (Desk D F) Bool
  is_debit = test_card (codes "DEBIT")

  unfoldable pub is_conso : Action (Desk D F) Bool
  is_conso = test_card (codes "CONSO")

  -- `card[1][b][i]`
  abbrev pub card_byte : ℕ → ℕ → Action (Desk D F) ℕ
  card_byte b i = do x ← read_block b; in_range (get_byte x i)

  -- `Mode::hasTicket`
  unfoldable pub has_ticket : Action (Desk D F) Bool
  has_ticket = do
    d ← is_debit
    if d then (card_byte 2 0 >>= λ n. pure (not (n == 0))) else pure false

  -- `Mode::getTicket`
  unfoldable pub get_ticket : Action (Desk D F) ℕ
  get_ticket = do t ← has_ticket; if t then card_byte 2 1 else pure 0

  -- `Mode::setCommand`
  unfoldable pub set_command : List ℕ → ℕ → ℕ → Action (Desk D F) (Unit {0})
  set_command command line time = do
    queue ← gets (λ k. get_or k.screen line [])
    modify (λ k. record k {
      screen =
          set k.screen line
            (queue ++ (record { message = take 21 command; time = time; printed = none } ∷ []));
    })

  -- `Mode::sendSOS`
  unfoldable pub send_sos : Action (Desk D F) (Unit {0})
  send_sos = do
    pianss ← gets (λ k. k.config.pianss)
    let text = codes "UPDATE SOS SET sos=1 WHERE pianss=\"" ++ (pianss ++ codes "\";")
    show_debug text
    request text

module _ {D F : Type 0} (float : FloatUnit F) where
  -- `Mode::getCredit`
  unfoldable pub get_credit : Action (Desk D F) F
  get_credit = do
    d ← is_debit
    if d
        then (read_block 1 >>= λ b. pure (float.of_memory (take 4 b.data_bytes)))
        else pure float.zero_float

  -- `std::memcpy(&card[1][1][0], &credit, 4)`
  abbrev pub put_credit : F → Action (Held D) (Unit {0})
  put_credit credit =
      change_block 1
        (λ b. record b { data_bytes = write_at 0 (float.to_memory credit) b.data_bytes })

  -- The changes that `createDebit` makes in memory.
  unfoldable pub fill_debit : Action (Held D) (Unit {0})
  fill_debit = do
    change_block 0 (write_name (codes "DEBIT"))
    put_credit float.zero_float
    change_block 2 (set_byte 0 0)
    change_block 2 (set_byte 1 0)
    mark 1
    mark 0
    mark 2

  -- `Mode::sendHistory`
  unfoldable pub send_history : List ℕ → F → Action (Desk D F) (Unit {0})
  send_history command price = do
    pianss ← gets (λ k. k.config.pianss)
    let text =
        codes "INSERT INTO history (pianss, command, price) VALUES (\""
        ++ (pianss
            ++ (codes "\", \"" ++ (command ++ (codes "\", " ++ (float.shown price ++ codes ");")))))
    show_debug text
    request text

module _ {D F : Type 0} (nfc : Libnfc D) where
  -- `Mode::writeCard`
  unfoldable pub write_card : Action (Desk D F) (Unit {0})
  write_card = do
    show_info (codes "NE PAS ENLEVER LA CARTE, ECRITURE EN COURS")
    catch
        (do
          done ← on_card (write_sector nfc 1)
          if done then show_info (codes "OK") else show_error (codes "NON OK"))
        (pure tt)

  module _ (float : FloatUnit F) where
    -- `Mode::createDebit`
    unfoldable pub create_debit : Action (Desk D F) (Unit {0})
    create_debit = do on_card (fill_debit float); write_card

-- The two tests of a line that has been printed at `printed`, where `more` lines wait behind it.
abbrev pub is_over : ℕ → Line → ℕ → List Line → Bool
is_over timer l printed more =
    if l.time == 0 then ltb 1 (suc (length more)) else leb (printed + l.time) timer

module _ {D F : Type 0} (world : World F) where
  -- The LCD's commands for line `i + 1`
  abbrev pub clear_lcd : ℕ → Action (Desk D F) (Unit {0})
  clear_lcd i = on_env (modify λ e. record e { printer = clear_line (suc i) e.printer })

  abbrev pub print_text : List ℕ → ℕ → Action (Desk D F) (Unit {0})
  print_text m i = on_env (modify λ e. record e { printer = print_lcd m (suc i) e.printer })

  abbrev pub put_queue : ℕ → List Line → Action (Desk D F) (Unit {0})
  put_queue i queue = modify λ k. record k { screen = set k.screen i queue }

  -- The body of the loop in `print`, for a line at the front of queue `i`, by when it was printed,
  -- and the time read before the loop.
  unfoldable pub print_front : ℕ → ℕ → Option ℕ → Line → List Line → Action (Desk D F) (Unit {0})
  print_front timer i none l more = do
    clear_lcd i
    now ← clock world
    put_queue i (record l { printed = some now } ∷ more)
    print_text l.message i
  print_front timer i (some printed) l more =
      if is_over timer l printed more then (put_queue i more >> clear_lcd i) else pure tt

  unfoldable pub print_queue : ℕ → ℕ → List Line → Action (Desk D F) (Unit {0})
  unfolding print_front
  print_queue timer i [] = pure tt
  print_queue timer i (l ∷ more) = print_front timer i l.printed l more

  unfoldable pub print_from : ℕ → ℕ → ℕ → Action (Desk D F) (Unit {0})
  print_from timer zero i = pure tt
  print_from timer (suc n) i = do
    queue ← gets (λ k. get_or k.screen i [])
    print_queue timer i queue
    print_from timer n (suc i)

  -- `Mode::print`, over the four queues
  unfoldable pub print : Action (Desk D F) (Unit {0})
  print = do timer ← clock world; print_from timer 4 0
