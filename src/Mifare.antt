-- ===== src/Mifare.antt =====
-- src/mifare.c and include/mifare.h: one MIFARE Classic command, sent through libnfc. libnfc is
-- another project's code, and a parameter, over the type `D` of the device's states.
use programme_bee_gadz.Common.{
  ℕ, Bool, true, false, Option, none, some, List, ◌∷◌, ◌==◌, if◌then◌else◌, take, write_at, ℤ, pos,
  negsuc, is_negative,
}

-- `nfc_property`: the two that the program sets.
pub data Property : Type 0 where
  easy_framing infinite_select : Property

-- `nfc_target`: what the program reads of `nti.nai`.
pub record Target : Type 0 where
  -- `abtUid`, `szUidLen`
  pub uid : List ℕ
  pub uid_length : ℕ
  -- `abtAtqa[1]`
  pub atqa_low : ℕ

-- The calls of libnfc on an open device; each has an `int` result.
pub record Libnfc (D : Type 0) : Type 0 where
  -- `nfc_device_set_property_bool`
  pub set_property_bool : Property → Bool → D → ℤ × D
  -- `nfc_initiator_transceive_bytes`: the frame to send; the second part is what was received
  pub transceive_bytes : List ℕ → D → ℤ × List ℕ × D
  -- `nfc_initiator_select_passive_target`: the UID to look for, empty for any
  pub select_passive_target : List ℕ → D → ℤ × Target × D

-- `mifare_cmd`; `other` stands for any number that is not one of its names.
pub data MifareCmd : Type 0 where
  auth_a auth_b read write transfer decrement increment store : MifareCmd
  other : ℕ → MifareCmd

abbrev pub cmd_number : MifareCmd → ℕ
cmd_number MifareCmd.auth_a = 0x60
cmd_number MifareCmd.auth_b = 0x61
cmd_number MifareCmd.read = 0x30
cmd_number MifareCmd.write = 0xa0
cmd_number MifareCmd.transfer = 0xb0
cmd_number MifareCmd.decrement = 0xc0
cmd_number MifareCmd.increment = 0xc1
cmd_number MifareCmd.store = 0xc2
cmd_number (MifareCmd.other n) = n

-- `mifare_param`, a union, as its 16 bytes: `abtKey` at 0, `abtAuthUid` at 6, `abtData` at 0.
abbrev pub MifareParam : Type 0
MifareParam = List ℕ

-- The first `switch`: `szParamLen`, or `none` for the early return.
unfoldable pub param_length : MifareCmd → Option ℕ
param_length MifareCmd.read = some 0
param_length MifareCmd.store = some 0
param_length MifareCmd.auth_a = some 10
param_length MifareCmd.auth_b = some 10
param_length MifareCmd.write = some 16
param_length MifareCmd.decrement = some 4
param_length MifareCmd.increment = some 4
param_length MifareCmd.transfer = some 4
param_length (MifareCmd.other n) = none

-- `if (mc == MC_READ)`, with the result of the transmission and what came in.
unfoldable pub take_answer : MifareCmd → ℤ → List ℕ → MifareParam → Bool × MifareParam
take_answer mc (negsuc e) rx pmp = (false, pmp)
take_answer MifareCmd.read (pos n) rx pmp =
    if n == 16 then (true, write_at 0 (take 16 rx) pmp) else (false, pmp)
take_answer mc (pos n) rx pmp = (true, pmp)

module _ {D : Type 0} (nfc : Libnfc D) where
  -- From the choice of `szParamLen` on.
  unfoldable pub send_frame : Option ℕ → MifareCmd → ℕ → MifareParam → D → (Bool × MifareParam) × D
  unfolding take_answer
  send_frame none mc block pmp d = ((false, pmp), d)
  send_frame (some n) mc block pmp d =
      let (res, d') = nfc.set_property_bool Property.easy_framing true d in
      if is_negative res
      then ((false, pmp), d')
      else let (res', rx, d'') = nfc.transceive_bytes (cmd_number mc ∷ block ∷ take n pmp) d' in
        (take_answer mc res' rx pmp, d'')

  -- `nfc_initiator_mifare_cmd`
  unfoldable pub nfc_initiator_mifare_cmd :
      MifareCmd → ℕ → MifareParam → D → (Bool × MifareParam) × D
  unfolding send_frame param_length
  nfc_initiator_mifare_cmd mc block pmp d = send_frame (param_length mc) mc block pmp d
