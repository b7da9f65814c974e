-- ===== src/Admin.antt =====
-- `class Admin` (include/admin.h, src/admin.cpp): the menus that make cards and set the mode.
pub mod OnTag
pub mod Tickets
use programme_bee_gadz.Common.{
  ℕ, zero, suc, ◌+◌, ◌-◌, ◌*◌, ◌%◌, ◌^◌, ◌==◌, Bool, true, false, Option, none, some, List, [], ◌∷◌,
  ◌++◌, Action, ok, threw, fault, ◌>>=◌, ◌>>◌, pure, throw, gets, modify, codes, if◌then◌else◌, ltb,
}
use programme_bee_gadz.Block.{set_byte}
use programme_bee_gadz.Printer.{clear_screen}
use programme_bee_gadz.Printer.Numerals.{decimal_of}
use programme_bee_gadz.Mifare.{Libnfc}
use programme_bee_gadz.Card.State.{Held}
use programme_bee_gadz.Card.Sectors.{find_card}
use programme_bee_gadz.Config.{Config, ConfigMode, get_keys, get_nb_conso, set_mode}
use programme_bee_gadz.Mode.{write_name, change_block, mark, write_card, create_debit}
use programme_bee_gadz.Mode.Members.{
  FloatUnit, World, Desk, on_env, on_card, show_info, show_error, the_conso, chosen,
}

-- Where the menus of `run` are, and its end. The menu of modes has one round only.
pub data Menu : Type 0 where
  main cards : Menu
  ended : Bool → Menu

-- `std::stoi` of the digits, from the number so far
abbrev pub read_digits : ℕ → List ℕ → ℕ
read_digits n [] = n
read_digits n (d ∷ digits) = read_digits (n * 10 + (d - b'0')) digits

-- `std::stoi` as a `uint8_t`, of `m_config["ticket"]`: digits, or -1
abbrev pub ticket_id : List ℕ → ℕ
ticket_id [] = 0
ticket_id (d ∷ digits) =
    if d == b'-'
    then (2 ^ 8 - read_digits 0 digits % 2 ^ 8) % 2 ^ 8
    else read_digits 0 (d ∷ digits) % 2 ^ 8

-- `tmp < 0 || (size_t)tmp > m_config->getNbConso()` for `tmp = key - '0'`
abbrev pub is_wrong_conso : ℕ → ℕ → Bool
is_wrong_conso key nb = if ltb key b'0' then true else ltb nb (key - b'0')

module _ {D : Type 0} where
  -- The changes that `createConso`, `createAdmin`, `createSOS` and `setTicket` make in memory
  unfoldable pub fill_conso : ℕ → Action (Held D) (Unit {0})
  fill_conso id = do
    change_block 0 (write_name (codes "CONSO"))
    change_block 1 (set_byte 0 id)
    mark 0
    mark 1

  unfoldable pub fill_named : List ℕ → Action (Held D) (Unit {0})
  fill_named name = do change_block 0 (write_name name); mark 0

  unfoldable pub fill_ticket : ℕ → Action (Held D) (Unit {0})
  fill_ticket id = do change_block 2 (set_byte 0 1); change_block 2 (set_byte 1 id); mark 2

module _ {D F : Type 0} (nfc : Libnfc D) where
  -- `Admin::createConso`
  unfoldable pub create_conso : ℕ → Action (Desk D F) (Unit {0})
  create_conso id = do on_card (fill_conso id); write_card nfc

  -- `Admin::createAdmin`
  unfoldable pub create_admin : Action (Desk D F) (Unit {0})
  create_admin = do on_card (fill_named (codes "ADMIN")); write_card nfc

  -- `Admin::createSOS`
  unfoldable pub create_sos : Action (Desk D F) (Unit {0})
  create_sos = do on_card (fill_named (codes "SOS")); write_card nfc

  -- `Admin::setTicket`
  unfoldable pub set_ticket : ℕ → Action (Desk D F) (Unit {0})
  set_ticket id = do on_card (fill_ticket id); write_card nfc

module _ {D F : Type 0} where
  abbrev pub clear_all : Action (Desk D F) (Unit {0})
  clear_all = on_env (modify λ e. record e { printer = clear_screen e.printer })

  -- `for (size_t i = 0; i < m_config->getNbConso(); ++i)`, with the drinks left
  unfoldable pub list_consos : ℕ → ℕ → Action (Desk D F) (Unit {0})
  list_consos zero i = pure tt
  list_consos (suc n) i = do
    c ← the_conso i
    show_info (decimal_of i ++ (codes " - " ++ c.0))
    list_consos n (suc i)

  -- A choice in the menu of modes
  unfoldable pub choose_mode : ℕ → Action (Desk D F) (Unit {0})
  choose_mode key =
      if key == b'0'
      then to ConfigMode.bar (codes "Mode Bar activé")
      else if key == b'1'
      then to ConfigMode.caisse (codes "Mode Caisse activé")
      else if key == b'2'
      then to ConfigMode.kve (codes "Mode Kve activé")
      else pure tt
    where
      to : ConfigMode → List ℕ → Action (Desk D F) (Unit {0})
      to m text = modify (λ k. record k { config = set_mode m k.config }) >> show_info text

module _ {D F : Type 0} (nfc : Libnfc D) (float : FloatUnit F) (world : World F) where
  -- `m_printer->printInfo("Posez une carte"); card = m_device->findCard(m_config->getKeys(true), true);`
  unfoldable pub wait_card : Action (Desk D F) (Unit {0})
  wait_card = do
    show_info (codes "Posez une carte")
    config ← gets (λ k. k.config)
    found ← on_env (find_card nfc (get_keys true config) true world.raw)
    modify (λ k. record k { card = found })

  -- `case '1'`: a CONSO card. The wait for a key after the error is left out.
  unfoldable pub make_conso : Action (Desk D F) (Unit {0})
  make_conso = do
    clear_all
    show_info (codes "--- Menu ---")
    nb ← gets (λ k. get_nb_conso k.config)
    list_consos nb 0
    show_info (codes "Entrez votre choix de conso : ")
    key ← chosen world
    if is_wrong_conso key nb
        then (show_error (codes "Mauvaise conso, appuyez sur une touche") >> clear_all)
        else (do wait_card; create_conso nfc ((key - b'0') % 2 ^ 8))

  -- `case '2'`: a DEBIT card, with a ticket if it is asked for
  unfoldable pub make_debit : Action (Desk D F) (Unit {0})
  make_debit = do
    wait_card
    create_debit nfc float
    show_info (codes "Ajouter un ticket ? (0/1) ")
    key ← chosen world
    ticket ← gets (λ k. k.config.ticket)
    if key == b'1'
        then (set_ticket nfc (ticket_id ticket) >> show_info (codes "Ticket ajouté."))
        else pure tt

  unfoldable pub make_card : ℕ → Action (Desk D F) Menu
  make_card key =
      if key == b'0'
      then (do wait_card; create_admin nfc; pure Menu.cards)
      else if key == b'1'
      then (make_conso >> pure Menu.cards)
      else if key == b'2'
      then (make_debit >> pure Menu.cards)
      else if key == b'3'
      then (do wait_card; create_sos nfc; pure Menu.cards)
      else (do clear_all; clear_all; pure Menu.main)

  -- A round of the menu of cards: the card of the round before is gone.
  unfoldable pub cards_round : Action (Desk D F) Menu
  cards_round = do
    clear_all
    show_info (codes "--- Menu ---")
    show_info (codes "0 - create ADMIN card")
    show_info (codes "1 - create CONSO card")
    show_info (codes "2 - create DEBIT card")
    show_info (codes "3 - create SOS card")
    show_info (codes "Any other key to return to the precedent menu")
    modify (λ k. record k { card = none })
    key ← chosen world
    make_card key

  unfoldable pub modes_menu : Action (Desk D F) (Unit {0})
  modes_menu = do
    clear_all
    show_info (codes "--- Menu ---")
    show_info (codes "0 - mode Bar")
    show_info (codes "1 - mode Caisse")
    show_info (codes "2 - mode Kve")
    show_info (codes "Any other key to return to the precedent menu")
    key ← chosen world
    choose_mode key
    clear_all
    clear_all

  unfoldable pub main_choice : ℕ → Action (Desk D F) Menu
  main_choice key =
      if key == b'3'
      then pure Menu.cards
      else if key == b'2'
      then (modes_menu >> pure Menu.main)
      else if key == b'0'
      then pure (Menu.ended true)
      else if key == b'1'
      then pure (Menu.ended false)
      else (clear_all >> pure Menu.main)

  -- A round of the main menu
  unfoldable pub main_round : Action (Desk D F) Menu
  main_round = do
    show_info (codes "--- Menu ---")
    show_info (codes "0 - quit Admin mode")
    show_info (codes "1 - quit program")
    show_info (codes "2 - set mode")
    show_info (codes "3 - create card")
    key ← chosen world
    main_choice key

  -- A round of whichever menu `run` is in
  unfoldable pub admin_round : Menu → Action (Desk D F) Menu
  admin_round Menu.main = main_round
  admin_round Menu.cards = cards_round
  admin_round (Menu.ended b) = pure (Menu.ended b)
