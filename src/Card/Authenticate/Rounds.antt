-- ===== src/Card/Authenticate/Rounds.antt =====
-- `Card::authenticate` (src/card.cpp) for any number of key bytes: its loop cannot run to its end.
use programme_bee_gadz.Common.{
  ℕ, zero, suc, ◌+◌, ◌*◌, ◌%◌, ◌^◌, ◌≤◌, ◌<◌, ◌≡◌, ◌≢◌, inl, inr, refl, sym, ap, ◌∙◌, Bool, true,
  false, none, some, List, arith, Result, ok, threw, fault, Bool-cases, Option-cases, leb, leb→le,
  leb-false, length, get_elem?, continue, pure,
}
use programme_bee_gadz.Sector.{Sector}
use programme_bee_gadz.Mifare.{Libnfc}
use programme_bee_gadz.NfcDevice.Results.{find_card_uid_returns}
use programme_bee_gadz.Card.Layout.{calculate_sector}
use programme_bee_gadz.Card.State.{Card, Held}
use programme_bee_gadz.Card.Commands.{
  key_at, auth_cmd, load_key, command, check_present, auth_round, auth_loop, authenticate,
}
use programme_bee_gadz.Card.Authenticate.Steps.{
  tag_seen, check_present_seen, check_present_gone, command_returns, command-keys, load_key_returns,
  load_key-keys, round_outside, loop_accepted, loop_gone, loop_fault, loop_next, begun,
  authenticate_lem,
}

then_false :
    {S A : Type 0} (r : Result A) (s : S) → (continue {B = Bool} (λ u. pure false) (r, s)).1 ≡ s
then_false (ok a) s = refl
then_false threw s = refl
then_false fault s = refl

module _ {D : Type 0} (nfc : Libnfc D) where
  -- The look for the tag returns or throws, and leaves the card alone.
  check_present-keys : (h : Held D) → (check_present nfc h).1.card.keys ≡ h.card.keys
  unfolding tag_seen
  check_present-keys h =
      let (b, e) = find_card_uid_returns nfc h.card.target.uid h.card.uid_length h.env in split b e
    where
      split :
          (b : Bool) → (tag_seen nfc h).0 ≡ ok b → (check_present nfc h).1.card.keys ≡ h.card.keys
      split true e = rw (check_present_seen nfc h e) refl
      split false e = ap (λ (c : Card). c.keys) (check_present_gone nfc h e).1

  load_key_outside :
      (sector : ℕ) (key : List ℕ) (h : Held D)
      → get_elem? h.card.sectors sector ≡ none
      → load_key sector key h ≡ (fault, h)
  unfolding load_key
  load_key_outside sector key h e = rw e

  module _ (sector block i : ℕ) (h : Held D) {s : Sector} {key : List ℕ}
      (inside : key_at h.card.keys i ≡ some key)
      (there : get_elem? h.card.sectors sector ≡ some s) where
    answer : Result Bool × Held D
    answer = command nfc (auth_cmd s.key_b) block (load_key sector key h).1

    answered-keys :
        (b : Bool) → answer.0 ≡ ok b → (auth_round nfc sector block i h).1.card.keys ≡ h.card.keys
    unfolding auth_round answer
    answered-keys true e =
        rw (inside, load_key_returns nfc sector key h there, e)
          (command-keys nfc (auth_cmd s.key_b) block (load_key sector key h).1
            ∙ load_key-keys nfc sector key h)
    answered-keys false e =
        let h' = (command nfc (auth_cmd s.key_b) block (load_key sector key h).1).1 in
        rw (inside, load_key_returns nfc sector key h there, e)
          (ap (λ (t : Held D). t.card.keys)
              (then_false (check_present nfc h').0 (check_present nfc h').1)
            ∙ check_present-keys h'
            ∙ command-keys nfc (auth_cmd s.key_b) block (load_key sector key h).1
            ∙ load_key-keys nfc sector key h)

  pub auth_round-keys :
      (sector block i : ℕ) (h : Held D)
      → (auth_round nfc sector block i h).1.card.keys ≡ h.card.keys
  unfolding auth_round answer
  auth_round-keys sector block i h = elim (Option-cases (key_at h.card.keys i)) [
    | inl e ↦ rw e
    | inr (key, e) ↦ elim (Option-cases (get_elem? h.card.sectors sector)) [
      | inl out ↦ rw (e, load_key_outside sector key h out)
      | inr (s, there) ↦
          let (b, said) = command_returns nfc (auth_cmd s.key_b) block (load_key sector key h).1 in
          answered-keys sector block i h e there b said
    ]
  ]

  -- A round that returns has read a key inside the array.
  auth_round_in_range :
      (sector block i : ℕ) (h : Held D) {b : Bool}
      → (auth_round nfc sector block i h).0 ≡ ok b
      → i + 6 ≤ length h.card.keys
  auth_round_in_range sector block i h e = elim (Bool-cases (leb (i + 6) (length h.card.keys))) [
    | inl inside ↦ leb→le (i + 6) (length h.card.keys) inside
    | inr outside ↦ cc (rw (round_outside nfc sector block i h (leb-false outside)) at e)
  ]

  auth_loop-ne-false :
      (fuel sector block i : ℕ) (h : Held D)
      → length h.card.keys * 6 < 2 ^ 64
      → i ≤ length h.card.keys
      → length h.card.keys < i + 6 * fuel
      → (auth_loop nfc fuel sector block i h).0 ≢ ok false
  unfolding auth_loop
  auth_loop-ne-false zero sector block i h small within enough e = absurd (omega arith)
  auth_loop-ne-false (suc fuel) sector block i h small within enough e =
      let h' = (auth_round nfc sector block i h).1 in
      let keys = auth_round-keys sector block i h in
      after
        (λ inside enough.
          auth_loop-ne-false fuel sector block (i + 6) h' (rw keys small) (rw keys inside)
            (rw keys enough))
        (auth_round nfc sector block i h).0 refl
    where
      after :
          (i + 6 ≤ length h.card.keys
            → length h.card.keys < i + 6 + 6 * fuel
            → (auth_loop nfc fuel sector block (i + 6) (auth_round nfc sector block i h).1).0
              ≢ ok false)
          → (r : Result Bool) → (auth_round nfc sector block i h).0 ≡ r
          → ⊥
      after next (ok true) said = cc (loop_accepted nfc fuel sector block i h said)
      after next (ok false) said =
          let inside = auth_round_in_range sector block i h said in
          let more : i + 6 < length h.card.keys * 6 % 2 ^ 64 = omega arith in
          let same = ap length (auth_round-keys sector block i h) in
          let goes_on = loop_next nfc fuel sector block i h said same more in
          next inside (omega arith) (sym (ap (λ (r : Result Bool × Held D). r.0) goes_on) ∙ e)
      after next threw said = cc (loop_gone nfc fuel sector block i h said)
      after next fault said = cc (loop_fault nfc fuel sector block i h said)

authenticate_outside :
    {D : Type 0} (nfc : Libnfc D) (block : ℕ) (h : Held D)
    → calculate_sector block h.card.sectors ≡ none
    → (authenticate nfc block h).0 ≡ fault
unfolding authenticate
authenticate_outside nfc block h e = rw e

pub begun-keys : {D : Type 0} (block : ℕ) (h : Held D) → (begun block h).card.keys ≡ h.card.keys
unfolding begun
begun-keys block h = refl

-- With any list of key bytes, six times whose length fits a `size_t`: the call never returns false.
-- It ends before, by a read past the end of the keys.
pub authenticate-ne-false :
    {D : Type 0} (nfc : Libnfc D) (block : ℕ) (h : Held D)
    → length h.card.keys * 6 < 2 ^ 64
    → (authenticate nfc block h).0 ≢ ok false
authenticate-ne-false {D} nfc block h small e =
    elim (Option-cases (calculate_sector block h.card.sectors)) [
      | inl out ↦ cc (authenticate_outside nfc block h out)
      | inr (place, at) ↦
          let runs = ap (λ (r : Result Bool × Held D). r.0) (authenticate_lem nfc block h at) in
          auth_loop-ne-false nfc (suc (length h.card.keys)) place.0 block 0 (begun block h)
            (rw (begun-keys block h) small) (omega arith) (rw (begun-keys block h) (omega arith))
            (sym runs ∙ e)
    ]
