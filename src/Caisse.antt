-- ===== src/Caisse.antt =====
-- `class Caisse` (include/caisse.h, src/caisse.cpp): cards are made, and credit is put on them.
pub mod Money
pub mod OnTag
pub mod Visit
pub mod Leaving
use programme_bee_gadz.Common.{
  ℕ, Bool, true, false, not, Option, none, some, List, [], ◌++◌, Action, ok, threw, fault, ◌>>=◌,
  ◌>>◌, pure, gets, catch, codes, if◌then◌else◌,
}
use programme_bee_gadz.Mifare.{Libnfc}
use programme_bee_gadz.Card.Sectors.{read_sector}
use programme_bee_gadz.Mode.{
  is_admin, is_sos, is_conso, is_debit, has_ticket, get_ticket, get_credit, create_debit, send_sos,
  send_history,
}
use programme_bee_gadz.Mode.Members.{FloatUnit, World, Desk, on_card, show_info, the_conso, entered}
use programme_bee_gadz.Mode.Reader.{Next, set_read, has_card, fetch_card, still_there}
use programme_bee_gadz.Bar.{store_credit}

module _ {D F : Type 0} (nfc : Libnfc D) (float : FloatUnit F) where
  -- `Caisse::incrementCredit`; its last three statements are those of `Bar::decrementCredit`.
  unfoldable pub increment_credit : F → Action (Desk D F) (Unit {0})
  increment_credit credit =
      if float.is_zero credit
      then pure tt
      else (get_credit float >>= λ held. store_credit nfc float (float.add credit held))

  unfoldable pub show_sum : Action (Desk D F) (Unit {0})
  show_sum = do
    credit ← get_credit float
    show_info (codes "Montant sur la carte : " ++ float.shown credit)

  -- The line on the ticket, where there is one; an unknown drink is passed over.
  unfoldable pub show_ticket : Action (Desk D F) (Unit {0})
  show_ticket = do
    has ← has_ticket
    t ← get_ticket
    if has
        then catch (the_conso t >>= λ c. show_info (codes "Ticket sur la carte : " ++ c.0))
            (pure tt)
        else pure tt

  -- What follows the entry of the sum
  unfoldable pub recharge_with : F → Action (Desk D F) (Unit {0})
  recharge_with credit =
      if float.exceeds credit 250
      then (do show_info (codes "Montant trop gros !"); show_info (codes "Posez une carte."))
      else (do
        increment_credit credit
        send_history float (codes "DEBIT") credit
        show_sum
        show_info (codes "Posez une carte"))

  module _ (world : World F) where
    -- A DEBIT card
    unfoldable pub recharge : Action (Desk D F) (Unit {0})
    recharge = do
      show_sum
      show_ticket
      show_info (codes "Entrez le montant à ajouter sur la carte : ")
      credit ← entered world
      recharge_with credit

    -- What follows `isAdmin`, by the kind of the card: SOS, CONSO, DEBIT or none of them
    unfoldable pub by_kind : Bool → Bool → Bool → Action (Desk D F) (Unit {0})
    by_kind true conso debit = do send_sos; show_info (codes "SOS envoyé")
    by_kind false true debit = do
      show_info (codes "Ceci est une carte CONSO")
      show_info (codes "Posez une carte.")
    by_kind false false false = do
      show_info (codes "Création de la carte en cours")
      create_debit nfc float
    by_kind false false true = recharge

    -- The chain of tests on a card that has been read; only `isAdmin` has an effect.
    unfoldable pub serve : Action (Desk D F) Next
    serve = do
      admin ← is_admin
      sos ← is_sos
      conso ← is_conso
      debit ← is_debit
      if admin then pure (Next.returns true) else (by_kind sos conso debit >> pure Next.again)

    -- `if (!read)`: whether the round goes on
    unfoldable pub load : Action (Desk D F) Bool
    load = do
      show_info (codes "Lecture de la carte en cours, ne pas retirer la carte.")
      done ←
          catch (on_card (read_sector nfc 1)) (show_info (codes "Posez une carte.") >> pure false)
      if done
          then (do set_read true; show_info (codes "Lecture terminée"); pure true)
          else pure false

    unfoldable pub take_card : Action (Desk D F) Next
    take_card = do
      there ← has_card
      read ← gets (λ k. k.read)
      if there
          then (do
            loaded ← (if read then pure true else load)
            if loaded then serve else pure Next.again)
          else pure Next.again

    -- `read = false; card = m_device->findCard(…)` and what follows
    unfoldable pub search_card : Action (Desk D F) Next
    search_card = do set_read false; fetch_card nfc world true; take_card

    unfoldable pub look_again : Action (Desk D F) Next
    look_again = do there ← still_there nfc; if there then pure Next.again else search_card

    -- A round of the loop of `Caisse::run`
    unfoldable pub caisse_round : Action (Desk D F) Next
    caisse_round =
        catch (has_card >>= λ there. if there then look_again else search_card) (pure Next.again)
