-- ===== src/Card/Authenticate.antt =====
-- How `Card::authenticate` (src/card.cpp) ends.
pub mod Rounds
pub mod Fuel
pub mod Steps
use programme_bee_gadz.Common.{
  ℕ, zero, suc, ◌+◌, ◌*◌, ◌%◌, ◌^◌, ◌≤◌, ◌<◌, ◌≡◌, ◌≢◌, ◌⊎◌, inl, inr, refl, sym, ap, ◌∙◌, Bool,
  true, false, Option, none, some, List, [], ◌∷◌, arith, Action, Result, ok, threw, fault, ◌>>=◌,
  Result-cases, leb→le, le→leb, leb_lt, lt→ltb, codes, ◌++◌, bind_ok, bind_threw, bind_fault,
  Bool-cases, Option-cases, leb, ltb, length, get_elem?, take, drop, continue,
}
use programme_bee_gadz.Sector.{Sector}
use programme_bee_gadz.Printer.{array_to_string}
use programme_bee_gadz.Printer.Numerals.{hex_of}
use programme_bee_gadz.Mifare.{Libnfc, MifareCmd, nfc_initiator_mifare_cmd}
use programme_bee_gadz.NfcDevice.{Env, mifare_cmd, find_card_uid}
use programme_bee_gadz.Card.Layout.{calculate_sector}
use programme_bee_gadz.Card.State.{Card, Held, uid_of}
use programme_bee_gadz.Card.Commands.{
  load_uid, show_debug, key_at, auth_cmd, load_key, command, check_present, auth_round, auth_loop,
  authenticate,
}
use programme_bee_gadz.Card.Authenticate.Steps.{
  tag_seen, check_present_seen, check_present_gone, attempt, command_returns, load_key_returns,
  load_key-keys, command-keys, round_accepted, round_gone, round_seen, round_outside, loop_accepted,
  loop_gone, loop_fault, loop_next, begun, authenticate_lem,
}

module _ {D : Type 0} (nfc : Libnfc D) where
  module _ (sector block : ℕ) (h : Held D) {s : Sector} (one : length h.card.keys ≡ 6)
      (there : get_elem? h.card.sectors sector ≡ some s) where
    first_key : key_at h.card.keys 0 ≡ some (take 6 h.card.keys)
    first_key = rw (le→leb (0 + 6) (length h.card.keys) (omega arith)) refl

    one_key_accepted :
        (fuel : ℕ)
        → (attempt nfc sector block (take 6 h.card.keys) h).0 ≡ ok true
        → (auth_loop nfc (suc fuel) sector block 0 h).0 ≡ ok true
    one_key_accepted fuel e =
        loop_accepted nfc fuel sector block 0 h
          (round_accepted nfc sector block 0 h there first_key e)

    one_key_gone :
        (fuel : ℕ)
        → (attempt nfc sector block (take 6 h.card.keys) h).0 ≡ ok false
        → (tag_seen nfc (attempt nfc sector block (take 6 h.card.keys) h).1).0 ≡ ok false
        → (auth_loop nfc (suc fuel) sector block 0 h).0 ≡ threw
    one_key_gone fuel e gone =
        loop_gone nfc fuel sector block 0 h (round_gone nfc sector block 0 h there first_key e gone)

    one_key_overrun :
        (fuel : ℕ)
        → (attempt nfc sector block (take 6 h.card.keys) h).0 ≡ ok false
        → (tag_seen nfc (attempt nfc sector block (take 6 h.card.keys) h).1).0 ≡ ok true
        → (auth_loop nfc (suc (suc fuel)) sector block 0 h).0 ≡ fault
    one_key_overrun fuel e seen =
        let (refused, keys) = round_seen nfc sector block 0 h there first_key e seen in
        let h' = (auth_round nfc sector block 0 h).1 in
        let still : length h'.card.keys ≡ 6 = ap length keys ∙ one in
        let past = round_outside nfc sector block 6 h' (omega arith) in
        ap (λ (r : Result Bool × Held D). r.0)
          (loop_next nfc (suc fuel) sector block 0 h refused still (omega arith))
        ∙ loop_fault nfc fuel sector block 6 h' (ap (λ (r : Result Bool × Held D). r.0) past)

-- How the call ends, by whether the tag took the only key and whether it was seen after that.
abbrev pub one_key_outcome : Bool → Bool → Result Bool
one_key_outcome true seen = ok true
one_key_outcome false true = fault
one_key_outcome false false = threw

-- A card with six bytes of keys, and a number that `calculateSector` places in one of its sectors:
-- `authenticate` returns true if the tag takes the key, throws if it does not and is gone, and reads
-- past the end of the keys if it does not and is still there.
pub authenticate_one_key :
    {D : Type 0} (nfc : Libnfc D) (block : ℕ) (h : Held D) {sector place : ℕ} {s : Sector}
    → length h.card.keys ≡ 6
    → calculate_sector block h.card.sectors ≡ some (sector, place)
    → get_elem? h.card.sectors sector ≡ some s
    → (accepted seen : Bool)
    → (attempt nfc sector block (take 6 h.card.keys) (begun block h)).0 ≡ ok accepted
    → (tag_seen nfc (attempt nfc sector block (take 6 h.card.keys) (begun block h)).1).0 ≡ ok seen
    → (authenticate nfc block h).0 ≡ one_key_outcome accepted seen
unfolding begun
authenticate_one_key {D} nfc block h {sector} {place} {s} one at there accepted seen e f =
    ap (λ (r : Result Bool × Held D). r.0) (authenticate_lem nfc block h at)
    ∙ loop accepted seen e f
  where
    h' : Held D
    h' = begun block h

    first : Result Bool × Held D
    first = attempt nfc sector block (take 6 h.card.keys) h'

    loop :
        (accepted seen : Bool)
        → first.0 ≡ ok accepted
        → (tag_seen nfc first.1).0 ≡ ok seen
        → (auth_loop nfc (suc (length h.card.keys)) sector block 0 h').0
          ≡ one_key_outcome accepted seen
    loop true seen e f = one_key_accepted nfc sector block h' one there (length h.card.keys) e
    loop false false e f = one_key_gone nfc sector block h' one there (length h.card.keys) e f
    loop false true e f =
        ap (λ (n : ℕ). (auth_loop nfc (suc n) sector block 0 h').0) one
        ∙ one_key_overrun nfc sector block h' one there 5 e f
