-- ===== src/Card/Authenticate/Fuel.antt =====
-- The loop of `Card::authenticate` (src/card.cpp) ends, after a round for each six key bytes and one more
-- at most.
use programme_bee_gadz.Common.{
  ap, ℕ, zero, suc, ◌+◌, ◌*◌, ◌%◌, ◌^◌, ◌≤◌, ◌<◌, ◌≡◌, inl, inr, refl, Bool, true, false, some,
  arith, Result, ok, threw, fault, Bool-cases, length, ltb, leb, leb→le, leb-false, pure, ◌>>◌,
  codes, ◌++◌,
}
use programme_bee_gadz.Printer.Numerals.{hex_of}
use programme_bee_gadz.Mifare.{Libnfc}
use programme_bee_gadz.Card.Layout.{calculate_sector}
use programme_bee_gadz.Card.State.{Held}
use programme_bee_gadz.Card.Commands.{show_error, auth_round, auth_loop, authenticate}
use programme_bee_gadz.Card.Authenticate.Steps.{round_outside, begun, authenticate_lem}
use programme_bee_gadz.Card.Authenticate.Rounds.{auth_round-keys}

-- A run of `do … while (i < m_keys.size() * 6)` from key byte `i` on, and of the two statements after it:
-- `rounds` rounds, of which each but the last finds that the tag has refused the key and is still there,
-- and `r` at its end.
pub data Rounds {D : Type 0} (nfc : Libnfc D) (sector block : ℕ)
    : ℕ → ℕ → Held D → Result Bool × Held D → Type 0 where
  -- `return true;`
  accepted :
      (i : ℕ) (h h' : Held D)
      → auth_round nfc sector block i h ≡ (ok true, h')
      → Rounds nfc sector block 1 i h (ok true, h')
  -- `throw std::exception();`
  gone :
      (i : ℕ) (h h' : Held D)
      → auth_round nfc sector block i h ≡ (threw, h')
      → Rounds nfc sector block 1 i h (threw, h')
  -- A read past the end of `m_keys`, or of `m_data`
  outside :
      (i : ℕ) (h h' : Held D)
      → auth_round nfc sector block i h ≡ (fault, h')
      → Rounds nfc sector block 1 i h (fault, h')
  goes_on :
      (rounds i : ℕ) (h h' : Held D) (r : Result Bool × Held D)
      → auth_round nfc sector block i h ≡ (ok false, h')
      → i + 6 < length h'.card.keys * 6 % 2 ^ 64
      → Rounds nfc sector block rounds (i + 6) h' r
      → Rounds nfc sector block (suc rounds) i h r
  -- The condition is false: the message, and `return false;`
  ends :
      (i : ℕ) (h h' : Held D)
      → auth_round nfc sector block i h ≡ (ok false, h')
      → length h'.card.keys * 6 % 2 ^ 64 ≤ i + 6
      → Rounds nfc sector block 1 i h (
          (show_error (codes "Error while trying to authenticate block " ++ hex_of block)
              >> pure false)
            h')

ltb→lt : (a b : ℕ) → ltb a b ≡ true → a < b
ltb→lt a b e = ground arith

ltb-false : (a b : ℕ) → ltb a b ≡ false → b ≤ a
ltb-false a b e = ground arith

module _ {D : Type 0} (nfc : Libnfc D) (sector block : ℕ) where
  -- A finite run, with a bound of its rounds by the key bytes that are left
  abbrev Ended : ℕ → Held D → Result Bool × Held D → Type 0
  Ended i h r =
      (rounds : ℕ) × (6 * rounds + i ≤ length h.card.keys + 6)
      × Rounds nfc sector block rounds i h r

  auth_loop-Ended :
      (fuel i : ℕ) (h : Held D)
      → i ≤ length h.card.keys
      → length h.card.keys < i + 6 * fuel
      → Ended i h (auth_loop nfc fuel sector block i h)
  unfolding auth_loop
  auth_loop-Ended zero i h inside enough = absurd (omega arith)
  auth_loop-Ended (suc fuel) i h inside enough =
      by_round
        (λ inside enough.
          auth_loop-Ended fuel (i + 6) (auth_round nfc sector block i h).1 inside enough)
        (auth_round nfc sector block i h).0 refl
    where
      h' : Held D
      h' = (auth_round nfc sector block i h).1

      by_round :
          (i + 6 ≤ length h'.card.keys
            → length h'.card.keys < i + 6 + 6 * fuel
            → Ended (i + 6) h' (auth_loop nfc fuel sector block (i + 6) h'))
          → (r : Result Bool) → (auth_round nfc sector block i h).0 ≡ r
          → Ended i h (auth_loop nfc (suc fuel) sector block i h)
      by_round later (ok true) e =
          rw e (1, omega arith, accepted i h h' (ap (λ (r : Result Bool). (r, h')) e))
      by_round later threw e =
          rw e (1, omega arith, gone i h h' (ap (λ (r : Result Bool). (r, h')) e))
      by_round later fault e =
          rw e (1, omega arith, outside i h h' (ap (λ (r : Result Bool). (r, h')) e))
      by_round later (ok false) e =
          let at : auth_round nfc sector block i h ≡ (ok false, h') =
            ap (λ (r : Result Bool). (r, h')) e in
          let keys : length h'.card.keys ≡ length h.card.keys =
            ap length (auth_round-keys nfc sector block i h) in
          elim (Bool-cases (leb (i + 6) (length h.card.keys))) [
            | inr past ↦
                let beyond = leb-false past in
                let out =
                  ap (λ (r : Result Bool × Held D). r.0)
                    (round_outside nfc sector block i h (omega arith)) in
                cc
            | inl within ↦
                let next = leb→le (i + 6) (length h.card.keys) within in
                elim (Bool-cases (ltb (i + 6) (length h'.card.keys * 6 % 2 ^ 64))) [
                  | inl more ↦
                      let (rounds, few, run) = later (omega arith) (omega arith) in
                      rw (e, more)
                        (
                          suc rounds,
                          omega arith,
                          goes_on rounds i h h' _ at (ltb→lt (i + 6) _ more) run,
                        )
                  | inr last ↦
                      rw (e, last) (1, omega arith, ends i h h' at (ltb-false (i + 6) _ last))
                ]
          ]

-- `authenticate`, on a block of a sector of the card, with whatever answers of the tag: it ends, with what
-- a run of the `do … while` loop of the source gives that starts at the first key byte; its rounds are not
-- more than one for each six key bytes, and one more.
pub authenticate_ends :
    {D : Type 0} (nfc : Libnfc D) (block : ℕ) (h : Held D) {sector place : ℕ}
    → calculate_sector block h.card.sectors ≡ some (sector, place)
    → (rounds : ℕ) × (6 * rounds ≤ length h.card.keys + 6)
      × Rounds nfc sector block rounds 0 (begun block h) (authenticate nfc block h)
unfolding begun
authenticate_ends nfc block h {sector} at =
    let (rounds, few, run) =
      auth_loop-Ended nfc sector block (suc (length h.card.keys)) 0 (begun block h) (omega arith)
        (omega arith) in
    (rounds, omega arith, rw (authenticate_lem nfc block h at) run)
