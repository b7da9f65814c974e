-- ===== src/Bar/Invariant.antt =====
-- The orders in the steps of a round of `Bar::run` (src/bar.cpp) that drop them or add to them.
pub mod Rounds
pub mod Runs
use programme_bee_gadz.Common.{
  ℕ, ◌≤◌, zero, suc, ◌+◌, ◌-◌, ◌^◌, ◌<◌, ◌==◌, ◌≡◌, inl, inr, refl, Bool, true, false, not, ◌&&◌,
  Option, none, some, List, [], ◌∷◌, ◌++◌, arith, Action, Result, ok, threw, fault, continue,
  handle, catch, ◌>>=◌, ◌>>◌, pure, gets, modify, codes, if◌then◌else◌, leb, Bool-cases,
}
use programme_bee_gadz.Printer.Numerals.{decimal_of}
use programme_bee_gadz.Mifare.{Libnfc}
use programme_bee_gadz.Card.Sectors.{read_sector}
use programme_bee_gadz.Mode.{
  is_admin, is_sos, is_conso, is_debit, has_ticket, get_ticket, get_credit, send_sos, print,
  set_command, send_history,
}
use programme_bee_gadz.Mode.Members.{
  FloatUnit, World, Desk, on_card, show_info, show_debug, clock, key_pressed, the_conso,
}
use programme_bee_gadz.Mode.Reader.{Next, set_read, has_card, fetch_card, still_there}
use programme_bee_gadz.Bar.{
  Orders, is_empty, counts, add_one, take_one, BarRun, on_desk, set_conso, set_time, get_conso_id,
  as_size, print_command, get_price, settle, use_ticket, decrement_ticket, pay_ticket, pay_credit,
  pay,
}
use programme_bee_gadz.Bar.Amounts.{amount, IsOrders, add_one_lem, take_one_lem}
use programme_bee_gadz.Bar.Round.{
  is_minus, cancel, by_key, by_time, card_gone, unread, order, corrupt, show_credit, by_kind, serve,
  load, take_card, look_again, attend, bar_round, say, display,
}

-- Well-formed orders with at most `n` drinks of each kind
pub record HasRoom (n : ℕ) (orders : Orders) : Type 0 where
  pub orders_fit : IsOrders orders
  pub room : (key : ℕ) → amount key orders ≤ n

pub no_orders : (n : ℕ) → HasRoom n []
no_orders n = record { orders_fit = tt; room = λ key. omega arith }

pub one_less :
    (n key : ℕ) (orders : Orders)
    → HasRoom n orders
    → counts key orders ≡ true
    → HasRoom n (take_one key orders)
one_less n key orders v e =
    let (fit, amounts) = take_one_lem key orders v.orders_fit e in
    record { orders_fit = fit; room = λ i. let n = amounts i in let r = v.room i in ground arith }

pub one_more :
    (n key : ℕ) (orders : Orders)
    → n + 1 < 2 ^ 64
    → HasRoom n orders
    → HasRoom (n + 1) (add_one key orders)
one_more n key orders small v =
    let r = v.room key in
    let (fit, amounts) = add_one_lem key orders v.orders_fit (omega arith) in
    record { orders_fit = fit; room = λ i. let a = amounts i in let r = v.room i in ground arith }

pub more_room : (n : ℕ) (orders : Orders) → HasRoom n orders → HasRoom (n + 1) orders
more_room n orders v = record {
  orders_fit = v.orders_fit;
  room = λ i. let r = v.room i in omega arith;
}

-- A round that begins with at most `n` drinks of each kind
module _ (n : ℕ) (small : n + 1 < 2 ^ 64) {D F : Type 0} where
  abbrev pub Keep : {A : Type 0} → Action (BarRun D F) A → Type 0
  Keep m = (b : BarRun D F) → HasRoom n b.conso → HasRoom n (m b).1.conso

  abbrev pub Ends : {A : Type 0} → Action (BarRun D F) A → Type 0
  Ends m = (b : BarRun D F) → HasRoom n b.conso → HasRoom (n + 1) (m b).1.conso

  pub continue_room :
      {A B : Type 0} (f : A → Action (BarRun D F) B)
      → ((a : A) → Keep (f a))
      → (r : Result A × BarRun D F) → HasRoom n r.1.conso
      → HasRoom n (continue f r).1.conso
  continue_room f keep (ok a, b) v = keep a b v
  continue_room f keep (threw, b) v = v
  continue_room f keep (fault, b) v = v

  pub then_Keep :
      {A B : Type 0} (m : Action (BarRun D F) A) (f : A → Action (BarRun D F) B)
      → Keep m
      → ((a : A) → Keep (f a))
      → Keep (m >>= f)
  then_Keep m f keep later b v = continue_room f later (m b) (keep b v)

  continue_end :
      {A B : Type 0} (f : A → Action (BarRun D F) B)
      → ((a : A) → Ends (f a))
      → (r : Result A × BarRun D F) → HasRoom n r.1.conso
      → HasRoom (n + 1) (continue f r).1.conso
  continue_end f end (ok a, b) v = end a b v
  continue_end f end (threw, b) v = more_room n _ v
  continue_end f end (fault, b) v = more_room n _ v

  pub then_Ends :
      {A B : Type 0} (m : Action (BarRun D F) A) (f : A → Action (BarRun D F) B)
      → Keep m
      → ((a : A) → Ends (f a))
      → Ends (m >>= f)
  then_Ends m f keep later b v = continue_end f later (m b) (keep b v)

  pub if_Ends :
      {A : Type 0} (c : Bool) (m n : Action (BarRun D F) A)
      → Ends m
      → Ends n
      → Ends (if c then m else n)
  if_Ends true m n p q = p
  if_Ends false m n p q = q

  ended : {A : Type 0} (m : Action (BarRun D F) A) → Keep m → Ends m
  ended m keep b v = more_room n _ (keep b v)

  pub by_key-Keep : (timer : ℕ) (key : Option ℕ) → Keep (by_key {D = D} {F = F} timer key)
  unfolding by_key cancel set_command
  by_key-Keep timer key b v = elim (Bool-cases (is_minus key && not (is_empty b.conso))) [
    | inl e ↦ rw e (no_orders n)
    | inr e ↦ rw e v
  ]

  pub by_time-Keep : (timer : ℕ) → Keep (by_time {D = D} {F = F} timer)
  unfolding by_time cancel set_command
  by_time-Keep timer b v = elim (Bool-cases (not (is_empty b.conso) && leb (b.time + 10) timer)) [
    | inl e ↦ rw e (no_orders n)
    | inr e ↦ rw e v
  ]

  give_up :
      (c : Bool) (timer : ℕ)
      → Keep (if c then (do say (codes "Commande annulée."); cancel; set_time timer) else pure tt)
  unfolding cancel set_command
  give_up true timer b v = no_orders n
  give_up false timer b v = v

  pub card_gone-Keep : (timer : ℕ) → Keep (card_gone {D = D} {F = F} timer)
  unfolding card_gone
  card_gone-Keep timer =
      then_Keep (on_desk is_conso) _ (λ b v. v)
        (λ c b v. give_up (not c && not (is_empty b.conso)) timer b v)

  pub unread-Keep : (timer : ℕ) → Keep (unread {D = D} {F = F} timer)
  unfolding unread cancel set_command
  unread-Keep timer b v = elim (Bool-cases (not (is_empty b.conso))) [
    | inl e ↦ rw e (no_orders n)
    | inr e ↦ rw e v
  ]

  -- What leaves the orders alone keeps them well formed.
  pub continue_fit :
      {A B : Type 0} (f : A → Action (BarRun D F) B)
      → ((a : A) (b : BarRun D F) → (f a b).1.conso ≡ b.conso)
      → (r : Result A × BarRun D F) → HasRoom (n + 1) r.1.conso
      → HasRoom (n + 1) (continue f r).1.conso
  continue_fit f calm (ok a, b) fit = rw (calm a b) fit
  continue_fit f calm (threw, b) fit = fit
  continue_fit f calm (fault, b) fit = fit

  -- A call on the members leaves the orders to what follows.
  pub desk_room :
      {A B : Type 0} (f : A → Action (BarRun D F) B) (r : Result A) (b : BarRun D F)
      → HasRoom n b.conso
      → ((a : A) → HasRoom n (f a b).1.conso)
      → HasRoom n (continue f (r, b)).1.conso
  desk_room f (ok a) b v next = next a
  desk_room f threw b v next = v
  desk_room f fault b v next = v

  -- What a CONSO card orders
  pub order-Ends : (timer : ℕ) → Ends (order {D = D} {F = F} timer)
  unfolding order set_command
  order-Ends timer =
      then_Ends (on_desk get_conso_id) _ (λ b v. v)
        (λ id b v.
          let next = record b { conso = add_one (as_size id) b.conso } in
          let fit = one_more n (as_size id) b.conso small v in ordered timer next fit)
    where
      ordered :
          (timer : ℕ) (b : BarRun D F)
          → HasRoom (n + 1) b.conso
          → HasRoom
              (n + 1)
              ((on_desk (print_command b.conso) >>= λ u.
                  set_time timer
                  >> (say (codes "Posez une carte DEBIT.")
                      >> display (codes "POSEZ CARTE DEBIT") 0 0))
                b).1.conso
      ordered timer b fit = continue_fit _ (λ u b. refl) (on_desk (print_command b.conso) b) fit

  pub handle_room :
      {A : Type 0} (h : Action (BarRun D F) A) (r : Result A × BarRun D F)
      → Keep h
      → HasRoom n r.1.conso
      → HasRoom n (handle h r).1.conso
  handle_room h (ok a, b) keep v = v
  handle_room h (threw, b) keep v = keep b v
  handle_room h (fault, b) keep v = v

  pub handle_fit :
      {A : Type 0} (a : A) (r : Result A × BarRun D F)
      → HasRoom (n + 1) r.1.conso
      → HasRoom (n + 1) (handle (pure a) r).1.conso
  handle_fit a (ok x, b) fit = fit
  handle_fit a (threw, b) fit = fit
  handle_fit a (fault, b) fit = fit
