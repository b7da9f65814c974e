-- ===== src/Kve.antt =====
-- `class Kve` (include/kve.h, src/kve.cpp): a snack is paid with a price that is typed, or a ticket.
pub mod Tickets
pub mod Visit
pub mod Leaving
use programme_bee_gadz.Common.{
  ℕ, ◌+◌, ◌==◌, Bool, true, false, not, ◌&&◌, Option, none, some, List, [], ◌++◌, Action, ok, threw,
  fault, ◌>>=◌, ◌>>◌, pure, gets, modify, catch, codes, if◌then◌else◌, leb,
}
use programme_bee_gadz.Mifare.{Libnfc}
use programme_bee_gadz.Card.Sectors.{read_sector}
use programme_bee_gadz.Mode.{
  is_admin, is_sos, is_conso, is_debit, has_ticket, get_ticket, get_credit, send_sos, send_history,
}
use programme_bee_gadz.Mode.Members.{
  FloatUnit, World, Desk, on_card, show_info, the_conso, clock, key_pressed, entered,
}
use programme_bee_gadz.Mode.Reader.{Next, set_read, has_card, fetch_card, still_there}
use programme_bee_gadz.Bar.{decrement_ticket, decrement_credit}

-- What `run` keeps beside the members: `ticket` and `time`.
pub record KveRun (D F : Type 0) : Type 0 where
  pub desk : Desk D F
  pub ticket : Bool
  pub time : ℕ

abbrev pub is_key : ℕ → Option ℕ → Bool
is_key key none = false
is_key key (some pressed) = pressed == key

module _ {D F : Type 0} where
  abbrev pub on_desk : {A : Type 0} → Action (Desk D F) A → Action (KveRun D F) A
  on_desk m r = let (a, k) = m r.desk in (a, record r { desk = k })

  abbrev pub say : List ℕ → Action (KveRun D F) (Unit {0})
  say m = on_desk (show_info m)

  abbrev pub set_ticket : Bool → Action (KveRun D F) (Unit {0})
  set_ticket b = modify λ r. record r { ticket = b }

  -- `if (test && ticket)`: the ticket is called off.
  unfoldable pub call_off : Bool → Action (KveRun D F) (Unit {0})
  call_off test = do
    ticket ← gets (λ r. r.ticket)
    if test && ticket then (set_ticket false >> say (codes "Ticket annulé.")) else pure tt

  -- The keys and the ten seconds, at the head of a round
  unfoldable pub by_key : ℕ → Option ℕ → Action (KveRun D F) (Unit {0})
  by_key timer key = do
    call_off (is_key b'-' key)
    time ← gets (λ r. r.time)
    call_off (leb (time + 10) timer)
    if is_key b'0' key
        then (do
          set_ticket true
          say (codes "Ticket ajouté.")
          modify (λ r. record r { time = timer }))
        else pure tt

module _ {D F : Type 0} (nfc : Libnfc D) (float : FloatUnit F) where
  -- The history after the ticket has been taken off the card
  unfoldable pub ticket_history : Action (Desk D F) (Unit {0})
  ticket_history = do
    t ← get_ticket
    c ← the_conso t
    send_history float (codes "ticket " ++ c.0) c.1

  unfoldable pub use_ticket : Action (KveRun D F) (Unit {0})
  use_ticket = do
    set_ticket false
    say (codes "TIcket utilisé")
    on_desk (decrement_ticket nfc)
    on_desk ticket_history

  -- `if (getCredit(*card) >= credit)`
  unfoldable pub settle : Bool → F → Action (Desk D F) (Unit {0})
  settle true price = do
    show_info (codes "OK")
    decrement_credit nfc float price
    send_history float (codes "KVE") price
  settle false price = show_info (codes "Pas assez d'argent sur la carte !")

  module _ (world : World F) where
    unfoldable pub pay_price : Action (KveRun D F) (Unit {0})
    pay_price = do
      say (codes "Entrez le prix du cok'ss : ")
      price ← on_desk (entered world)
      credit ← on_desk (get_credit float)
      on_desk (settle (float.at_least credit price) price)
      call_off true
      say (codes "Posez une cart DEBIT.")

    -- What follows `isAdmin`, by the kind of the card: SOS, CONSO, DEBIT or none of them, and whether
    -- a ticket is asked for and there
    unfoldable pub by_kind : Bool → Bool → Bool → Bool → Action (KveRun D F) (Unit {0})
    by_kind true conso debit has = do
      on_desk send_sos
      say (codes "SOS envoyé")
      call_off true
      say (codes "Posez une cart DEBIT.")
    by_kind false true debit has = do
      say (codes "Ceci est une carte CONSO")
      say (codes "Posez une carte DEBIT.")
      call_off true
    by_kind false false true true = use_ticket
    by_kind false false true false = pay_price
    by_kind false false false has = do
      say (codes "Pas assez d'argent sur la carte !")
      say (codes "Posez une cart DEBIT.")

    -- The chain of tests on a card that has been read; only `isAdmin` has an effect.
    unfoldable pub serve : Action (KveRun D F) Next
    serve = do
      admin ← on_desk is_admin
      sos ← on_desk is_sos
      conso ← on_desk is_conso
      debit ← on_desk is_debit
      ticket ← gets (λ r. r.ticket)
      has ← on_desk has_ticket
      if admin
          then pure (Next.returns true)
          else (by_kind sos conso debit (ticket && has) >> pure Next.again)

    -- `if (!read)`: whether the round goes on
    unfoldable pub load : Action (KveRun D F) Bool
    load = do
      say (codes "Lecture de la carte en cours, ne pas retirer la carte.")
      done ←
          catch (on_desk (on_card (read_sector nfc 1)))
            (do call_off true; say (codes "Posez une carte DEBIT."); pure false)
      if done
          then (do on_desk (set_read true); say (codes "Lecture terminée"); pure true)
          else pure false

    unfoldable pub take_card : Action (KveRun D F) Next
    take_card = do
      there ← on_desk has_card
      read ← gets (λ r. r.desk.read)
      if there
          then (do
            loaded ← (if read then pure true else load)
            if loaded then serve else pure Next.again)
          else pure Next.again

    -- `read = false; card = m_device->findCard(…)` and what follows
    unfoldable pub search_card : Action (KveRun D F) Next
    search_card = do on_desk (set_read false); on_desk (fetch_card nfc world false); take_card

    unfoldable pub look_again : Action (KveRun D F) Next
    look_again = do
      there ← on_desk (still_there nfc)
      if there then pure Next.again else search_card

    unfoldable pub attend : Action (KveRun D F) Next
    attend = do
      timer ← on_desk (clock world)
      key ← on_desk (key_pressed world)
      by_key timer key
      there ← on_desk has_card
      if there then look_again else search_card

    -- A round of the loop of `Kve::run`
    unfoldable pub kve_round : Action (KveRun D F) Next
    kve_round = catch attend (pure Next.again)
