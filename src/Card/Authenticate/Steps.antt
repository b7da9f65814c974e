-- ===== src/Card/Authenticate/Steps.antt =====
-- The steps of `Card::authenticate` (src/card.cpp): the command for a key, the look for the tag, and a
-- round of the loop.
use programme_bee_gadz.Common.{
  ℕ, suc, ◌+◌, ◌*◌, ◌%◌, ◌^◌, ◌<◌, ◌≡◌, inl, inr, refl, ◌∙◌, Bool, true, false, some, List, Result,
  ok, threw, fault, leb_lt, lt→ltb, codes, ◌++◌, Option-cases, length, get_elem?, continue,
}
use programme_bee_gadz.Sector.{Sector}
use programme_bee_gadz.Printer.{array_to_string}
use programme_bee_gadz.Printer.Numerals.{hex_of}
use programme_bee_gadz.Mifare.{Libnfc, MifareCmd, nfc_initiator_mifare_cmd}
use programme_bee_gadz.NfcDevice.{Env, mifare_cmd, find_card_uid}
use programme_bee_gadz.Card.Layout.{calculate_sector}
use programme_bee_gadz.Card.State.{Held, uid_of}
use programme_bee_gadz.Card.Commands.{
  load_uid, show_debug, key_at, auth_cmd, load_key, command, check_present, auth_round, auth_loop,
  authenticate,
}

module _ {D : Type 0} (nfc : Libnfc D) where
  -- What the search for the card's own tag answers.
  unfoldable pub tag_seen : Held D → Result Bool × Env D
  tag_seen h = find_card_uid nfc h.card.target.uid h.card.uid_length h.env

  pub check_present_seen :
      (h : Held D)
      → (tag_seen h).0 ≡ ok true
      → check_present nfc h ≡ (ok tt, record h { env = (tag_seen h).1 })
  unfolding check_present tag_seen
  check_present_seen h e = rw e

  pub check_present_gone :
      (h : Held D)
      → (tag_seen h).0 ≡ ok false
      → ((check_present nfc h).0 ≡ threw) × ((check_present nfc h).1.card ≡ h.card)
  unfolding check_present tag_seen
  check_present_gone h e = (rw e, rw e)

  -- The command that a round sends for a key, from the state that it finds.
  unfoldable pub attempt : ℕ → ℕ → List ℕ → Held D → Result Bool × Held D
  attempt sector block key h =
      let (key_b, h') = load_key sector key h in
      continue (λ b. command nfc (auth_cmd b) block) (key_b, h')

  pub command_returns :
      (cmd : MifareCmd) (block : ℕ) (h : Held D) → (b : Bool) × ((command nfc cmd block h).0 ≡ ok b)
  unfolding command mifare_cmd
  command_returns cmd block h =
      ((nfc_initiator_mifare_cmd nfc cmd (block % 2 ^ 8) h.card.param h.env.device).0.0, refl)

  pub load_key_returns :
      (sector : ℕ) (key : List ℕ) (h : Held D) {s : Sector}
      → get_elem? h.card.sectors sector ≡ some s
      → (load_key sector key h).0 ≡ ok s.key_b
  unfolding load_key
  load_key_returns sector key h e = rw e

  pub load_key-keys :
      (sector : ℕ) (key : List ℕ) (h : Held D) → (load_key sector key h).1.card.keys ≡ h.card.keys
  unfolding load_key
  load_key-keys sector key h = elim (Option-cases (get_elem? h.card.sectors sector)) [
    | inl e ↦ rw e
    | inr (s, e) ↦ rw e
  ]

  pub command-keys :
      (cmd : MifareCmd) (block : ℕ) (h : Held D)
      → (command nfc cmd block h).1.card.keys ≡ h.card.keys
  unfolding command mifare_cmd
  command-keys cmd block h = refl

  module _ (sector block i : ℕ) (h : Held D) {s : Sector} {key : List ℕ}
      (there : get_elem? h.card.sectors sector ≡ some s)
      (inside : key_at h.card.keys i ≡ some key) where
    attempt_lem :
        attempt sector block key h ≡ command nfc (auth_cmd s.key_b) block (load_key sector key h).1
    unfolding attempt
    attempt_lem = rw (load_key_returns sector key h there)

    attempt-keys : (attempt sector block key h).1.card.keys ≡ h.card.keys
    attempt-keys = rw attempt_lem (
        command-keys (auth_cmd s.key_b) block (load_key sector key h).1
        ∙ load_key-keys sector key h)

    pub round_accepted :
        (attempt sector block key h).0 ≡ ok true → (auth_round nfc sector block i h).0 ≡ ok true
    unfolding auth_round
    round_accepted e =
        let said = rw attempt_lem at e in rw (inside, load_key_returns sector key h there, said)

    module _ (rejected : (attempt sector block key h).0 ≡ ok false) where
      answered : (command nfc (auth_cmd s.key_b) block (load_key sector key h).1).0 ≡ ok false
      answered = rw attempt_lem at rejected

      pub round_gone :
          (tag_seen (attempt sector block key h).1).0 ≡ ok false
          → (auth_round nfc sector block i h).0 ≡ threw
      unfolding auth_round
      round_gone gone =
          let after = (command nfc (auth_cmd s.key_b) block (load_key sector key h).1).1 in
          let lost : (tag_seen after).0 ≡ ok false = rw attempt_lem at gone in
          rw (
            inside,
            load_key_returns sector key h there,
            answered,
            (check_present_gone after lost).0,
          )

      pub round_seen :
          (tag_seen (attempt sector block key h).1).0 ≡ ok true
          → ((auth_round nfc sector block i h).0 ≡ ok false)
            × ((auth_round nfc sector block i h).1.card.keys ≡ h.card.keys)
      unfolding auth_round
      round_seen seen =
          let after = (command nfc (auth_cmd s.key_b) block (load_key sector key h).1).1 in
          let still : (tag_seen after).0 ≡ ok true = rw attempt_lem at seen in
          (
            rw (
              inside,
              load_key_returns sector key h there,
              answered,
              check_present_seen after still,
            ),
            rw
                (
                  inside,
                  load_key_returns sector key h there,
                  answered,
                  check_present_seen after still,
                )
                (command-keys (auth_cmd s.key_b) block (load_key sector key h).1
                  ∙ load_key-keys sector key h),
          )

  -- A round past the last key reads outside the array.
  pub round_outside :
      (sector block i : ℕ) (h : Held D)
      → length h.card.keys < i + 6
      → auth_round nfc sector block i h ≡ (fault, h)
  unfolding auth_round
  round_outside sector block i h out = rw (leb_lt (i + 6) (length h.card.keys) out)

  module _ (fuel sector block i : ℕ) (h : Held D) where
    pub loop_accepted :
        (auth_round nfc sector block i h).0 ≡ ok true
        → (auth_loop nfc (suc fuel) sector block i h).0 ≡ ok true
    unfolding auth_loop
    loop_accepted e = rw e

    pub loop_gone :
        (auth_round nfc sector block i h).0 ≡ threw
        → (auth_loop nfc (suc fuel) sector block i h).0 ≡ threw
    unfolding auth_loop
    loop_gone e = rw e

    pub loop_fault :
        (auth_round nfc sector block i h).0 ≡ fault
        → (auth_loop nfc (suc fuel) sector block i h).0 ≡ fault
    unfolding auth_loop
    loop_fault e = rw e

    pub loop_next :
        {n : ℕ}
        → (auth_round nfc sector block i h).0 ≡ ok false
        → length (auth_round nfc sector block i h).1.card.keys ≡ n
        → i + 6 < n * 6 % 2 ^ 64
        → auth_loop nfc (suc fuel) sector block i h
          ≡ auth_loop nfc fuel sector block (i + 6) (auth_round nfc sector block i h).1
    unfolding auth_loop
    loop_next {n} e same more = rw (e, same, lt→ltb (i + 6) (n * 6 % 2 ^ 64) more)

-- The environment and the card as `authenticate` has them when its loop begins.
unfoldable pub begun : {D : Type 0} → ℕ → Held D → Held D
begun block h =
    let h' = (load_uid h).1 in
    (show_debug
      (codes "Trying to authenticate block "
        ++ (hex_of block ++ (codes " on card " ++ array_to_string (uid_of h'.card))))
      h').1

module _ {D : Type 0} (nfc : Libnfc D) (block : ℕ) (h : Held D) where
  pub authenticate_lem :
      {sector place : ℕ}
      → calculate_sector block h.card.sectors ≡ some (sector, place)
      → authenticate nfc block h
        ≡ auth_loop nfc (suc (length h.card.keys)) sector block 0 (begun block h)
  unfolding authenticate begun
  authenticate_lem e = rw e
