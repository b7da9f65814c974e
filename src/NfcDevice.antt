-- ===== src/NfcDevice.antt =====
-- `class NfcDevice` (include/nfc_driver.h, src/nfc_driver.cpp): the reader, and the environment in
-- which its cards work. The search that makes a card, `findCard(keys, infinite)`, is in Card.antt.
pub mod Results
pub mod Opening
use programme_bee_gadz.Common.{
  ℕ, Bool, true, false, not, List, Action, ok, ◌>>=◌, ◌>>◌, pure, gets, modify, codes, is_negative,
  is_positive, ℤ, if◌then◌else◌, take, ◌%◌, ◌^◌,
}
use programme_bee_gadz.Printer.{Printer, print_debug, print_error}
use programme_bee_gadz.Mifare.{
  Libnfc, Property, Target, MifareCmd, MifareParam, nfc_initiator_mifare_cmd,
}

pub record Env (D : Type 0) : Type 0 where
  -- `m_device`, as the state that libnfc keeps of it
  pub device : D
  -- `m_infinite`
  pub infinite : Bool
  -- `m_print`
  pub printer : Printer

abbrev pub same_bool : Bool → Bool → Bool
same_bool true b = b
same_bool false b = not b

module _ {D : Type 0} where
  abbrev pub debug : List ℕ → Action (Env D) (Unit {0})
  debug m = modify λ e. record e { printer = print_debug m e.printer }

  abbrev pub error : List ℕ → Action (Env D) (Unit {0})
  error m = modify λ e. record e { printer = print_error m e.printer }

module _ {D : Type 0} (nfc : Libnfc D) where
  -- `nfc_device_set_property_bool(m_device, …)`
  abbrev pub call_set_property : Property → Bool → Action (Env D) ℤ
  call_set_property p v e =
      let (res, d) = nfc.set_property_bool p v e.device in (ok res, record e { device = d })

  -- `nfc_initiator_select_passive_target(m_device, …)`
  abbrev pub call_select : List ℕ → Action (Env D) (ℤ × Target)
  call_select uid e =
      let (res, target, d) = nfc.select_passive_target uid e.device in
      (ok (res, target), record e { device = d })

  -- `NfcDevice::infiniteSelect`, once the property has been set
  abbrev pub infinite_set : Bool → Bool → Action (Env D) Bool
  infinite_set infinite failed =
      if failed
      then (error (codes "Error while trying to set property") >> pure false)
      else (modify (λ e. record e { infinite = infinite }) >> pure true)

  -- `NfcDevice::infiniteSelect`, where the mode changes
  abbrev pub set_infinite : Bool → Action (Env D) Bool
  set_infinite infinite = do
    debug (codes "Setting the device to infinite/once mode")
    res ← call_set_property Property.infinite_select infinite
    infinite_set infinite (is_negative res)

  -- `NfcDevice::infiniteSelect`
  unfoldable pub infinite_select : Bool → Action (Env D) Bool
  infinite_select infinite = do
    current ← gets (λ e. e.infinite)
    if same_bool current infinite then pure true else set_infinite infinite

  -- `NfcDevice::mifareCmd`: the block number becomes a `uint8_t`.
  unfoldable pub mifare_cmd : MifareCmd → ℕ → MifareParam → Action (Env D) (Bool × MifareParam)
  mifare_cmd cmd block param e =
      let (answer, d) = nfc_initiator_mifare_cmd nfc cmd (block % 2 ^ 8) param e.device in
      (ok answer, record e { device = d })

  -- `NfcDevice::findCard(uid, len)`
  unfoldable pub find_card_uid : List ℕ → ℕ → Action (Env D) Bool
  find_card_uid uid len = do
    done ← infinite_select false
    found ← call_select (take len uid)
    pure (is_positive found.0)
