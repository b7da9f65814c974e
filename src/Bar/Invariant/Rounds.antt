-- ===== src/Bar/Invariant/Rounds.antt =====
-- The orders over a whole round of the loop of `Bar::run` (src/bar.cpp).
use programme_bee_gadz.Common.{
  ℕ, suc, ◌+◌, ◌-◌, ◌^◌, ◌<◌, arith, ◌≡◌, inl, inr, refl, Bool, true, false, ◌&&◌, Action, catch,
  ◌>>=◌, ◌>>◌, pure, codes, if◌then◌else◌, Bool-cases,
}
use programme_bee_gadz.Mifare.{Libnfc}
use programme_bee_gadz.Card.Sectors.{read_sector}
use programme_bee_gadz.Mode.{
  is_admin, is_sos, is_conso, is_debit, has_ticket, get_ticket, get_credit, send_sos, print,
  set_command, send_history,
}
use programme_bee_gadz.Mode.Members.{FloatUnit, World, on_card, the_conso}
use programme_bee_gadz.Mode.Reader.{Next, set_read, has_card, fetch_card, still_there}
use programme_bee_gadz.Bar.{
  is_empty, counts, BarRun, on_desk, get_price, use_ticket, pay_ticket, pay_credit, pay,
}
use programme_bee_gadz.Bar.Amounts.{IsOrders, amount}
use programme_bee_gadz.Bar.Round.{
  by_key, by_time, card_gone, unread, corrupt, show_credit, by_kind, serve, load, take_card,
  look_again, attend, bar_round, say, display,
}
use programme_bee_gadz.Bar.Invariant.{
  HasRoom, Keep, Ends, no_orders, more_room, one_less, then_Keep, continue_room, then_Ends, if_Ends,
  by_key-Keep, by_time-Keep, card_gone-Keep, unread-Keep, continue_fit, desk_room, order-Ends,
  handle_room, handle_fit,
}

-- A round that begins with at most `n` drinks of each kind
module _ (n : ℕ) (small : n + 1 < 2 ^ 64) {D F : Type 0} (nfc : Libnfc D)
    (float : FloatUnit F) where
  use_ticket-room :
      (t : ℕ) (b : BarRun D F)
      → HasRoom n b.conso
      → counts t b.conso ≡ true
      → HasRoom n (use_ticket nfc float t b).1.conso
  unfolding use_ticket set_command send_history
  use_ticket-room t b v e =
      let b' = record b { desk = (the_conso t b.desk).1 } in
      desk_room n small _ (the_conso t b.desk).0 b' v (λ c. one_less n t b.conso v e)

  pay_ticket-Keep : Keep n small (pay_ticket nfc float)
  unfolding pay_ticket
  pay_ticket-Keep =
      then_Keep n small (on_desk has_ticket) _ (λ b v. v)
        (λ has. then_Keep n small (on_desk get_ticket) _ (λ b v. v) (λ t b v. paid has t b v))
    where
      paid :
          (has : Bool) (t : ℕ) (b : BarRun D F)
          → HasRoom n b.conso
          → HasRoom n
              ((if has && counts t b.conso then use_ticket nfc float t else pure tt) b).1.conso
      paid false t b v = v
      paid true t b v = elim (Bool-cases (counts t b.conso)) [
        | inl e ↦ rw e (use_ticket-room t b v e)
        | inr e ↦ rw e v
      ]

  pay_credit-Keep : Keep n small (pay_credit nfc float)
  unfolding pay_credit
  pay_credit-Keep =
      then_Keep n small (on_desk (get_credit float)) _ (λ b v. v)
        (λ credit b v.
          desk_room n small _ (get_price float b.conso b.desk).0
            (record b { desk = (get_price float b.conso b.desk).1 }) v (λ price. v))

  pay-Keep : (timer : ℕ) → Keep n small (pay nfc float timer)
  unfolding pay set_command
  pay-Keep timer =
      then_Keep n small (pay_ticket nfc float) _ pay_ticket-Keep
        (λ u. then_Keep n small (pay_credit nfc float) _ pay_credit-Keep (λ u b v. no_orders n))

  module _ (world : World F) where
    show_credit-Keep : Keep n small (show_credit nfc float world)
    unfolding show_credit set_command
    show_credit-Keep = then_Keep n small (on_desk (get_credit float)) _ (λ b v. v) (λ credit b v. v)

    by_kind-Ends :
        (timer : ℕ) (sos debit conso empty : Bool)
        → Ends n small (by_kind nfc float world timer sos debit conso empty)
    unfolding by_kind corrupt send_sos set_command
    by_kind-Ends timer true debit conso empty b v = more_room n _ v
    by_kind-Ends timer false true conso true b v = more_room n _ (show_credit-Keep b v)
    by_kind-Ends timer false true conso false b v = more_room n _ (pay-Keep timer b v)
    by_kind-Ends timer false false true empty b v = order-Ends n small timer b v
    by_kind-Ends timer false false false empty b v = more_room n _ v

    serve-Ends : (timer : ℕ) → Ends n small (serve nfc float world timer)
    unfolding serve
    serve-Ends timer =
        then_Ends n small (on_desk is_admin) _ (λ b v. v)
          (λ admin.
            then_Ends n small (on_desk is_sos) _ (λ b v. v)
              (λ sos.
                then_Ends n small (on_desk is_debit) _ (λ b v. v)
                  (λ debit.
                    then_Ends n small (on_desk is_conso) _ (λ b v. v)
                      (λ conso b v.
                        if_Ends n small admin _ _ (λ b v. more_room n _ v)
                          (λ b' w.
                            continue_fit n small (λ u. pure Next.again) (λ u b. refl)
                              (by_kind nfc float world timer sos debit conso (is_empty b.conso) b')
                              (by_kind-Ends timer sos debit conso (is_empty b.conso) b' w))
                          b v))))

    loaded-Keep :
        (done : Bool)
        → Keep n small {D = D} {F = F} (
            if done
            then (do
              on_desk (set_read true)
              say (codes "Lecture terminée")
              display (codes "LECTURE TERMINEE") 2 1
              pure true)
            else pure false)
    unfolding set_command
    loaded-Keep true b v = v
    loaded-Keep false b v = v

    load-Keep : (timer : ℕ) → Keep n small (load nfc float world timer)
    unfolding load set_command
    load-Keep timer b v =
        let b1 = (say (codes "Lecture de la carte en cours, ne pas retirer la carte.") b).1 in
        let b2 = (display (codes "LECTURE EN COURS") 2 0 b1).1 in
        continue_room n small _ loaded-Keep
          (catch (on_desk (on_card (read_sector nfc 1))) (unread timer) b2)
          (handle_room n small (unread timer) (on_desk (on_card (read_sector nfc 1)) b2)
            (unread-Keep n small timer) v)

    served-Ends :
        (timer : ℕ) (loaded : Bool)
        → Ends n small (if loaded then serve nfc float world timer else pure Next.again)
    served-Ends timer true b v = serve-Ends timer b v
    served-Ends timer false b v = more_room n _ v

    loads-Keep :
        (timer : ℕ) (read : Bool)
        → Keep n small (if read then pure true else load nfc float world timer)
    loads-Keep timer true b v = v
    loads-Keep timer false b v = load-Keep timer b v

    taken-Ends :
        (timer : ℕ) (there read : Bool)
        → Ends n small (
            if there
            then (do
              loaded ← (if read then pure true else load nfc float world timer)
              if loaded then serve nfc float world timer else pure Next.again)
            else pure Next.again)
    taken-Ends timer true read b v =
        then_Ends n small (if read then pure true else load nfc float world timer) _
          (loads-Keep timer read) (λ loaded. served-Ends timer loaded) b v
    taken-Ends timer false read b v = more_room n _ v

    take_card-Ends : (timer : ℕ) → Ends n small (take_card nfc float world timer)
    unfolding take_card
    take_card-Ends timer b v = taken-Ends timer _ b.desk.read b v

    look_again-Ends : (timer : ℕ) → Ends n small (look_again nfc float world timer)
    unfolding look_again
    look_again-Ends timer =
        then_Ends n small (on_desk (still_there nfc)) _ (λ b v. v)
          (λ there.
            if_Ends n small there _ _ (λ b v. more_room n _ v)
              (then_Ends n small (card_gone timer) _ (card_gone-Keep n small timer) (λ u.
                then_Ends n small (on_desk (fetch_card nfc world false)) _ (λ b v. v)
                  (λ u b v.
                    take_card-Ends timer (record b { desk = record b.desk { read = false } }) v))))

    -- The rest of a round, where a card is in hand or not
    abbrev go_on : ℕ → Bool → Action (BarRun D F) Next
    go_on timer there = if there then look_again nfc float world timer else (do
      on_desk (set_read false)
      on_desk (fetch_card nfc world false)
      take_card nfc float world timer)

    go_on-Ends : (timer : ℕ) (there : Bool) → Ends n small (go_on timer there)
    go_on-Ends timer true b v = look_again-Ends timer b v
    go_on-Ends timer false b v =
        then_Ends n small (on_desk (fetch_card nfc world false))
          (λ u. take_card nfc float world timer) (λ b v. v) (λ u. take_card-Ends timer)
          (record b { desk = record b.desk { read = false } }) v

    attend-Ends : Ends n small (attend nfc float world)
    unfolding attend
    attend-Ends b v =
        let timer = world.times b.desk.ticks in
        let key = world.keys b.desk.strokes in
        then_Ends n small (by_key timer key)
          (λ u. by_time timer >>= λ u. on_desk has_card >>= go_on timer)
          (by_key-Keep n small timer key)
          (λ u.
            then_Ends n small (by_time timer) (λ u. on_desk has_card >>= go_on timer)
              (by_time-Keep n small timer)
              (λ u.
                then_Ends n small (on_desk has_card) (go_on timer) (λ b v. v) (go_on-Ends timer)))
          (record b {
            desk = record b.desk { ticks = suc b.desk.ticks; strokes = suc b.desk.strokes };
          })
          v

-- A round adds at most one drink of each kind.
pub bar_round-HasRoom :
    {D F : Type 0} (nfc : Libnfc D) (float : FloatUnit F) (world : World F) (n : ℕ) (b : BarRun D F)
    → n + 1 < 2 ^ 64
    → HasRoom n b.conso
    → HasRoom (n + 1) (bar_round nfc float world b).1.conso
unfolding bar_round
bar_round-HasRoom nfc float world n b small v =
    then_Ends n small (on_desk (print world)) _ (λ b v. v)
      (λ u b v.
        handle_fit n small Next.again (attend nfc float world b)
          (attend-Ends n small nfc float world b v))
      b v

-- Orders that stand once for each kind, with no number zero and room for one drink more of each: after
-- a round of the loop of `Bar::run`, whatever the reader, the keys and the clock do, and also where an
-- exception ends the round, every kind stands once and no number is zero or does not fit.
pub bar_round-IsOrders :
    {D F : Type 0} (nfc : Libnfc D) (float : FloatUnit F) (world : World F) (b : BarRun D F)
    → IsOrders b.conso
    → ((key : ℕ) → amount key b.conso + 1 < 2 ^ 64)
    → IsOrders (bar_round nfc float world b).1.conso
bar_round-IsOrders nfc float world b fit room =
    (bar_round-HasRoom nfc float world (2 ^ 64 - 2) b (omega arith)
      (record { orders_fit = fit; room = λ key. let r = room key in omega arith })).orders_fit
