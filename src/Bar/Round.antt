-- ===== src/Bar/Round.antt =====
-- One round of the loop of `Bar::run` (src/bar.cpp).
use programme_bee_gadz.Common.{
  ℕ, ◌+◌, Bool, true, false, not, ◌&&◌, Option, none, some, List, [], ◌++◌, ◌==◌, Action, ◌>>=◌,
  ◌>>◌, pure, gets, catch, codes, if◌then◌else◌, leb,
}
use programme_bee_gadz.Mifare.{Libnfc}
use programme_bee_gadz.Card.Sectors.{read_sector}
use programme_bee_gadz.Mode.{
  is_admin, is_sos, is_conso, is_debit, get_credit, set_command, send_sos, print,
}
use programme_bee_gadz.Mode.Members.{
  FloatUnit, World, on_card, show_info, show_error, show_debug, clock, key_pressed,
}
use programme_bee_gadz.Mode.Reader.{Next, set_read, has_card, fetch_card, still_there}
use programme_bee_gadz.Bar.{
  is_empty, add_one, BarRun, on_desk, set_conso, set_time, get_conso_id, as_size, print_command,
  pay,
}

abbrev pub is_minus : Option ℕ → Bool
is_minus none = false
is_minus (some key) = key == b'-'

module _ {D F : Type 0} where
  abbrev pub say : List ℕ → Action (BarRun D F) (Unit {0})
  say m = on_desk (show_info m)

  abbrev pub display : List ℕ → ℕ → ℕ → Action (BarRun D F) (Unit {0})
  display m line time = on_desk (set_command m line time)

  -- The order is dropped, with a line on the screen.
  unfoldable pub cancel : Action (BarRun D F) (Unit {0})
  cancel = do set_conso []; display (codes "COMMANDE ANNULEE") 1 1

  -- `if (m_printer->getKeyPressedNB() == '-' && !conso.empty())`
  unfoldable pub by_key : ℕ → Option ℕ → Action (BarRun D F) (Unit {0})
  by_key timer key = do
    orders ← gets (λ b. b.conso)
    if is_minus key && not (is_empty orders)
        then (do
          cancel
          display (codes "POSEZ CARTE CONSO") 0 0
          say (codes "Commande annulée.")
          say (codes "Posez une carte CONSO.")
          set_time timer)
        else pure tt

  -- `if (!conso.empty() && timer - time >= 10)`
  unfoldable pub by_time : ℕ → Action (BarRun D F) (Unit {0})
  by_time timer = do
    orders ← gets (λ b. b.conso)
    time ← gets (λ b. b.time)
    if not (is_empty orders) && leb (time + 10) timer
        then (do cancel; display (codes "POSEZ CARTE CONSO") 0 0; set_time timer)
        else pure tt

  -- The card in hand is gone: an order stays only if that was a CONSO card.
  unfoldable pub card_gone : ℕ → Action (BarRun D F) (Unit {0})
  card_gone timer = do
    c ← on_desk is_conso
    orders ← gets (λ b. b.conso)
    if not c && not (is_empty orders)
        then (do say (codes "Commande annulée."); cancel; set_time timer)
        else pure tt

  -- The card could not be read.
  unfoldable pub unread : ℕ → Action (BarRun D F) Bool
  unread timer = do
    orders ← gets (λ b. b.conso)
    if not (is_empty orders)
        then (do say (codes "Commande annulée."); cancel; set_time timer)
        else pure tt
    say (codes "Posez une carte CONSO.")
    display (codes "POSEZ CARTE CONSO") 0 0
    pure false

  unfoldable pub order : ℕ → Action (BarRun D F) (Unit {0})
  order timer = do
    id ← on_desk get_conso_id
    orders ← gets (λ b. b.conso)
    set_conso (add_one (as_size id) orders)
    now ← gets (λ b. b.conso)
    on_desk (print_command now)
    set_time timer
    say (codes "Posez une carte DEBIT.")
    display (codes "POSEZ CARTE DEBIT") 0 0

  unfoldable pub corrupt : Action (BarRun D F) (Unit {0})
  corrupt = do
    on_desk (show_error (codes "Carte corrompue !"))
    display (codes "CARTE CORROMPUE") 3 1
    say (codes "Posez une carte CONSO.")
    display (codes "POSEZ CARTE CONSO") 0 0

module _ {D F : Type 0} (nfc : Libnfc D) (float : FloatUnit F) (world : World F) where
  unfoldable pub show_credit : Action (BarRun D F) (Unit {0})
  show_credit = do
    credit ← on_desk (get_credit float)
    on_desk (show_debug (codes "Argent sur la carte : " ++ float.shown credit))
    say (codes "Posez une carte CONSO.")
    display (codes "plop" ++ float.fixed credit) 0 0
    display (codes "POSEZ CARTE CONSO") 0 0

  -- What follows `isAdmin`, by the kind of the card
  unfoldable pub by_kind : ℕ → Bool → Bool → Bool → Bool → Action (BarRun D F) (Unit {0})
  by_kind timer true debit conso empty = do on_desk send_sos; say (codes "SOS envoyé")
  by_kind timer false true conso true = show_credit
  by_kind timer false true conso false = pay nfc float timer
  by_kind timer false false true empty = order timer
  by_kind timer false false false empty = corrupt

  -- The chain of tests on a card that has been read; only `isAdmin` has an effect.
  unfoldable pub serve : ℕ → Action (BarRun D F) Next
  serve timer = do
    admin ← on_desk is_admin
    sos ← on_desk is_sos
    debit ← on_desk is_debit
    conso ← on_desk is_conso
    orders ← gets (λ b. b.conso)
    if admin
        then pure (Next.returns true)
        else (by_kind timer sos debit conso (is_empty orders) >> pure Next.again)

  -- `if (!read)`: whether the round goes on
  unfoldable pub load : ℕ → Action (BarRun D F) Bool
  load timer = do
    say (codes "Lecture de la carte en cours, ne pas retirer la carte.")
    display (codes "LECTURE EN COURS") 2 0
    done ← catch (on_desk (on_card (read_sector nfc 1))) (unread timer)
    if done
        then (do
          on_desk (set_read true)
          say (codes "Lecture terminée")
          display (codes "LECTURE TERMINEE") 2 1
          pure true)
        else pure false

  -- The card is new: `if (!card) continue;` and what follows
  unfoldable pub take_card : ℕ → Action (BarRun D F) Next
  take_card timer = do
    there ← on_desk has_card
    read ← gets (λ b. b.desk.read)
    if there
        then (do
          loaded ← (if read then pure true else load timer)
          if loaded then serve timer else pure Next.again)
        else pure Next.again

  -- A card is in hand: it is gone, or the round ends
  unfoldable pub look_again : ℕ → Action (BarRun D F) Next
  look_again timer = do
    there ← on_desk (still_there nfc)
    if there then pure Next.again else (do
      card_gone timer
      on_desk (fetch_card nfc world false)
      on_desk (set_read false)
      take_card timer)

  -- What the `try` of a round holds
  unfoldable pub attend : Action (BarRun D F) Next
  attend = do
    timer ← on_desk (clock world)
    key ← on_desk (key_pressed world)
    by_key timer key
    by_time timer
    there ← on_desk has_card
    if there
        then look_again timer
        else (do on_desk (set_read false); on_desk (fetch_card nfc world false); take_card timer)

  -- A round of the loop
  unfoldable pub bar_round : Action (BarRun D F) Next
  bar_round = do on_desk (print world); catch attend (pure Next.again)
