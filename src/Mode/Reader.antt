-- ===== src/Mode/Reader.antt =====
-- The steps that `run` of the modes `Bar`, `Caisse` and `Kve` share (src/bar.cpp, src/caisse.cpp,
-- src/kve.cpp): the search for a card, and whether the card is still there.
use programme_bee_gadz.Common.{Bool, true, false, Option, none, some, Action, ◌>>=◌, gets, modify}
use programme_bee_gadz.Mifare.{Libnfc}
use programme_bee_gadz.NfcDevice.{find_card_uid}
use programme_bee_gadz.Card.State.{Card}
use programme_bee_gadz.Card.Sectors.{find_card}
use programme_bee_gadz.Config.{get_keys}
use programme_bee_gadz.Mode.Members.{World, Desk, on_env, on_card}

-- How a round of a `run` ends: the loop goes on, or `run` returns.
pub data Next : Type 0 where
  again : Next
  returns : Bool → Next

-- Whether `card` points to a card
abbrev pub is_held : Option Card → Bool
is_held none = false
is_held (some c) = true

module _ {D F : Type 0} where
  abbrev pub set_read : Bool → Action (Desk D F) (Unit {0})
  set_read b = modify λ k. record k { read = b }

  -- `if (!card)`
  abbrev pub has_card : Action (Desk D F) Bool
  has_card = gets λ k. is_held k.card

module _ {D F : Type 0} (nfc : Libnfc D) where
  -- `card = m_device->findCard(m_config->getKeys(is_caisse), false)`
  unfoldable pub fetch_card : World F → Bool → Action (Desk D F) (Unit {0})
  fetch_card world is_caisse = do
    config ← gets (λ k. k.config)
    found ← on_env (find_card nfc (get_keys is_caisse config) false world.raw)
    modify (λ k. record k { card = found })

  -- `m_device->findCard(card->getUid(), card->sizeUid())`
  unfoldable pub still_there : Action (Desk D F) Bool
  still_there = on_card λ h.
      let (r, e) = find_card_uid nfc h.card.target.uid h.card.uid_length h.env in
      (r, record h { env = e })
