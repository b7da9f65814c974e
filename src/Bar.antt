-- ===== src/Bar.antt =====
-- `class Bar` (include/bar.h, src/bar.cpp): drinks are ordered with CONSO cards and paid with a DEBIT
-- card.
pub mod Round
pub mod Money
pub mod OnTag
pub mod Amounts
pub mod Payment
pub mod Invariant
pub mod Visit
pub mod Leaving
use programme_bee_gadz.Common.{
  ℕ, zero, suc, ◌+◌, ◌-◌, ◌*◌, ◌%◌, ◌^◌, ◌≤◌, ◌==◌, Bool, true, false, not, ◌&&◌, Option, none,
  some, List, [], ◌∷◌, ◌++◌, Action, Result, ok, threw, fault, ◌>>=◌, ◌>>◌, pure, gets, modify,
  codes, if◌then◌else◌, ℤ, pos, negsuc,
}
use programme_bee_gadz.Block.{set_byte}
use programme_bee_gadz.Printer.Numerals.{decimal_of}
use programme_bee_gadz.Mifare.{Libnfc}
use programme_bee_gadz.Mode.{
  is_conso, is_debit, has_ticket, get_ticket, get_credit, put_credit, change_block, mark, card_byte,
  set_command, send_history, write_card,
}
use programme_bee_gadz.Mode.Members.{FloatUnit, Desk, on_card, show_info, show_debug, the_conso}

-- `std::unordered_map<size_t, size_t>`, in the order in which a loop visits it.
abbrev pub Orders : Type 0
Orders = List (ℕ × ℕ)

abbrev pub is_empty : Orders → Bool
is_empty [] = true
is_empty (o ∷ orders) = false

-- `conso.count(key)`
abbrev pub counts : ℕ → Orders → Bool
counts key [] = false
counts key (o ∷ orders) = let rest = counts key orders in if o.0 == key then true else rest

-- `++conso[key]` for a key that is there
abbrev pub one_more : ℕ → Orders → Orders
one_more key [] = []
one_more key (o ∷ orders) =
    let rest = one_more key orders in
    if o.0 == key then (key, (o.1 + 1) % 2 ^ 64) ∷ orders else o ∷ rest

-- `++conso[key]`; a new key becomes the first that a loop visits. The standard leaves that open, and
-- libstdc++ does it for a key whose bucket is empty.
abbrev pub add_one : ℕ → Orders → Orders
add_one key orders = if counts key orders then one_more key orders else (key, 1) ∷ orders

-- `--conso[key]; if (!conso[key]) conso.erase(key);` for a key that is there
abbrev pub take_one : ℕ → Orders → Orders
take_one key [] = []
take_one key (o ∷ orders) =
    let rest = take_one key orders in
    if o.0 == key
    then (if (o.1 + 2 ^ 64 - 1) % 2 ^ 64 == 0
        then orders
        else (key, (o.1 + 2 ^ 64 - 1) % 2 ^ 64) ∷ orders)
    else o ∷ rest

-- An `int` as a `size_t`
abbrev pub as_size : ℤ → ℕ
as_size (pos n) = n
as_size (negsuc n) = 2 ^ 64 - 1 - n

-- What `run` keeps beside the members: `conso` and `time`.
pub record BarRun (D F : Type 0) : Type 0 where
  pub desk : Desk D F
  pub conso : Orders
  pub time : ℕ

module _ {D F : Type 0} where
  abbrev pub on_desk : {A : Type 0} → Action (Desk D F) A → Action (BarRun D F) A
  on_desk m b = let (r, k) = m b.desk in (r, record b { desk = k })

  abbrev pub set_conso : Orders → Action (BarRun D F) (Unit {0})
  set_conso orders = modify λ b. record b { conso = orders }

  abbrev pub set_time : ℕ → Action (BarRun D F) (Unit {0})
  set_time n = modify λ b. record b { time = n }

  -- `Bar::getConso`
  unfoldable pub get_conso_id : Action (Desk D F) ℤ
  get_conso_id = do
    c ← is_conso
    if c then (card_byte 1 0 >>= λ n. pure (pos n)) else pure (negsuc 0)

module _ {D F : Type 0} (float : FloatUnit F) where
  -- The loop of `getPrice`, from the sum so far
  unfoldable pub price_from : F → Orders → Action (Desk D F) F
  price_from price [] = pure price
  price_from price (o ∷ orders) = do
    c ← the_conso o.0
    price_from (float.add price (float.times c.1 o.1)) orders

  -- `Bar::getPrice`
  unfoldable pub get_price : Orders → Action (Desk D F) F
  get_price orders = price_from float.zero_float orders

  -- The history of the drinks that are paid
  unfoldable pub send_orders : Orders → Action (Desk D F) (Unit {0})
  send_orders [] = pure tt
  send_orders (o ∷ orders) = do
    c ← the_conso o.0
    send_history float (c.0 ++ (codes " x" ++ decimal_of o.1)) (float.times c.1 o.1)
    send_orders orders

module _ {D F : Type 0} where
  unfoldable pub print_orders : Orders → Action (Desk D F) (Unit {0})
  print_orders [] = pure tt
  print_orders (o ∷ orders) = do
    c ← the_conso o.0
    show_info (c.0 ++ (codes " x" ++ decimal_of o.1))
    print_orders orders

  -- `Bar::printCommand`
  unfoldable pub print_command : Orders → Action (Desk D F) (Unit {0})
  print_command orders = show_info (codes "Commande : ") >> print_orders orders

module _ {D F : Type 0} (nfc : Libnfc D) where
  -- `Bar::decrementTicket`
  unfoldable pub decrement_ticket : Action (Desk D F) (Unit {0})
  decrement_ticket = do
    n ← card_byte 2 0
    if n == 0 then pure tt else on_card (change_block 2 (set_byte 0 (n - 1)))
    on_card (mark 2)
    write_card nfc

  module _ (float : FloatUnit F) where
    -- `credit` put into the card's memory, and the card written
    unfoldable pub store_credit : F → Action (Desk D F) (Unit {0})
    store_credit credit = do on_card (put_credit float credit); on_card (mark 1); write_card nfc

    -- `Bar::decrementCredit`
    unfoldable pub decrement_credit : F → Action (Desk D F) (Unit {0})
    decrement_credit price = do
      credit ← get_credit float
      if float.is_zero credit then pure tt else store_credit (float.subtract credit price)

    -- The ticket's part of a payment
    unfoldable pub use_ticket : ℕ → Action (BarRun D F) (Unit {0})
    use_ticket t = do
      c ← on_desk (the_conso t)
      on_desk (show_debug c.0)
      orders ← gets (λ b. b.conso)
      set_conso (take_one t orders)
      on_desk (show_info (codes "Ticket " ++ (c.0 ++ codes " utilisé.")))
      on_desk (set_command (codes "TICKET UTILISE") 3 1)
      on_desk (send_history float (codes "ticket " ++ c.0) c.1)
      on_desk (decrement_ticket)

    -- The credit's part of a payment, where the credit is enough or not
    unfoldable pub settle : Bool → F → Orders → Action (Desk D F) (Unit {0})
    settle true price orders = do
      show_info (codes "OK")
      set_command (codes "DEBUCQUAGE OK") 3 1
      decrement_credit price
      send_orders float orders
    settle false price orders = do
      show_info (codes "Pas assez d'argent sur la carte !")
      set_command (codes "PAS ASSEZ D'ARGENT") 3 1

    -- `if (hasTicket(*card) && conso.count(getTicket(*card)))`
    unfoldable pub pay_ticket : Action (BarRun D F) (Unit {0})
    pay_ticket = do
      has ← on_desk has_ticket
      t ← on_desk get_ticket
      orders ← gets (λ b. b.conso)
      if has && counts t orders then use_ticket t else pure tt

    -- `if (getCredit(*card) >= getPrice(conso))`
    unfoldable pub pay_credit : Action (BarRun D F) (Unit {0})
    pay_credit = do
      credit ← on_desk (get_credit float)
      orders ← gets (λ b. b.conso)
      price ← on_desk (get_price float orders)
      on_desk (settle (float.at_least credit price) price orders)

    -- A DEBIT card pays the drinks that are ordered.
    unfoldable pub pay : ℕ → Action (BarRun D F) (Unit {0})
    pay timer = do
      pay_ticket
      pay_credit
      set_conso []
      set_time timer
      on_desk (show_info (codes "Posez une carte CONSO."))
      on_desk (set_command (codes "POSEZ CARTE CONSO") 0 0)
