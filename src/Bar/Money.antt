-- ===== src/Bar/Money.antt =====
-- What `decrementCredit` and `decrementTicket` (src/bar.cpp) do to the card in memory.
use programme_bee_gadz.Common.{
  ℕ, suc, ◌-◌, ◌≡◌, inl, inr, refl, ap, ◌∙◌, ◌==◌, List, ◌∷◌, some, arith, Action, ◌>>=◌, ok,
  bind_ok, codes, if◌then◌else◌, get_elem?, get_elem?-set_self, get_elem?-set_ne, Bool-cases,
  ==_iff, lt_of_get_elem?,
}
use programme_bee_gadz.Card.State.{Held}
use programme_bee_gadz.Block.{Block, IsBlock, State, set_byte, set_state, memory}
use programme_bee_gadz.Mifare.{Libnfc}
use programme_bee_gadz.Mode.{c_string, get_credit, put_credit, change_block, mark, write_card}
use programme_bee_gadz.Mode.Members.{FloatUnit, IsFloatUnit, Desk, on_card}
use programme_bee_gadz.Mode.Memory.{
  Holds, Makes, change_block-Makes, read_block_lem, on_card-Makes, write_card-Holds,
}
use programme_bee_gadz.Mode.Kinds.{credit_in, credit_block, credit_in-credit_block, get_credit_lem}
use programme_bee_gadz.Bar.{store_credit, decrement_credit, decrement_ticket}

module _ {D F : Type 0} (nfc : Libnfc D) where
  -- A change of the card in memory, a mark, and the card is written.
  pub change_and_write :
      (m n : Action (Held D) (Unit {0})) (k : Desk D F) {xs ys zs : List Block}
      → Makes {D = D} m xs ys
      → Makes n ys zs
      → Holds k xs
      → Holds ((on_card m >>= λ u. on_card n >>= λ u. write_card nfc) k).1 zs
  change_and_write m n k p q holds =
      let (done, made) = on_card-Makes m k p holds in
      let k' = (on_card m k).1 in
      let (marked, ready) = on_card-Makes n k' q made in
      rw
        (
          bind_ok (on_card m) (λ u. on_card n >>= λ u. write_card nfc) k done,
          bind_ok (on_card n) (λ u. write_card nfc) k' marked,
        )
        (write_card-Holds nfc (on_card n k').1 ready)

  module _ (float : FloatUnit F) where
    pub store_credit-Holds :
        (credit : F) (k : Desk D F) (b0 b1 : Block) (rest : List Block)
        → Holds k (b0 ∷ b1 ∷ rest)
        → Holds
            (store_credit nfc float credit k).1
            (b0 ∷ credit_block (float.to_memory credit) b1 ∷ rest)
    unfolding store_credit
    store_credit-Holds credit k b0 b1 rest holds =
        change_and_write (put_credit float credit) (mark 1) k (change_block-Makes 1 _ _ refl)
          (change_block-Makes 1 _ _ refl) holds

-- The sum that is left after a payment: a credit of zero stays.
abbrev pub credit_left : {F : Type 0} → FloatUnit F → F → F → F
credit_left float credit price =
    if float.is_zero credit then credit else float.subtract credit price

-- A DEBIT card with its blocks in memory: after `decrementCredit`, whatever the reader answers, the
-- credit in memory is lower by the price, or still zero, and no other block has changed.
pub decrement_credit_lem :
    {D F : Type 0} (nfc : Libnfc D) (float : FloatUnit F)
    → IsFloatUnit float
    → (price : F) (k : Desk D F) (b0 b1 : Block) (rest : List Block) → Holds k (b0 ∷ b1 ∷ rest)
    → c_string (memory b0) ≡ codes "DEBIT"
    → IsBlock b1
    → (b1' : Block) × Holds (decrement_credit nfc float price k).1 (b0 ∷ b1' ∷ rest)
      × (get_credit float (decrement_credit nfc float price k).1 ≡ (
        ok (credit_left float (credit_in float b1) price),
        (decrement_credit nfc float price k).1,
      ))
unfolding decrement_credit
decrement_credit_lem {D} {F} nfc float unit price k b0 b1 rest holds named whole =
    elim (Bool-cases (float.is_zero credit)) [
      | inl none_left ↦ rw (reads, none_left) (b1, holds, reads)
      | inr left ↦
          let paid = float.subtract credit price in
          let after = store_credit-Holds nfc float paid k b0 b1 rest holds in
          let k' = (store_credit nfc float paid k).1 in
          rw (reads, left)
            (
              credit_block (float.to_memory paid) b1,
              after,
              get_credit_lem float k' b0 _ rest after named
                  ∙ ap (λ x. (ok x, k')) (credit_in-credit_block float unit paid b1 whole),
            )
    ]
  where
    credit : F
    credit = credit_in float b1

    reads : get_credit float k ≡ (ok (credit_in float b1), k)
    reads = get_credit_lem float k b0 b1 rest holds named

-- A card with its blocks in memory, and `n` as the number of its tickets: after `decrementTicket`,
-- whatever the reader answers, the number in memory is `n - 1`, or still 0, every other byte of the
-- block is the same, and no other block has changed.
pub decrement_ticket_lem :
    {D F : Type 0} (nfc : Libnfc D) (k : Desk D F) (b0 b1 b2 : Block) (rest : List Block) {n : ℕ}
    → Holds k (b0 ∷ b1 ∷ b2 ∷ rest)
    → get_elem? b2.data_bytes 0 ≡ some n
    → (b2' : Block) × Holds (decrement_ticket nfc k).1 (b0 ∷ b1 ∷ b2' ∷ rest)
      × (get_elem? b2'.data_bytes 0 ≡ some (n - 1))
      × ((i : ℕ) → get_elem? b2'.data_bytes (suc i) ≡ get_elem? b2.data_bytes (suc i))
unfolding decrement_ticket
decrement_ticket_lem {D} {F} nfc k b0 b1 b2 rest {n} holds at = elim (Bool-cases (n == 0)) [
  | inl none_left ↦
      let stays : n ≡ n - 1 = omega (arith, (==_iff n 0).0 none_left) in
      let (marked, ready) = on_card-Makes (mark 2) k (change_block-Makes 2 _ _ refl) holds in
      rw (read_block_lem k 2 holds refl, at, none_left)
        (
          set_state State.modified b2,
          rw (bind_ok (on_card (mark 2)) (λ u. write_card nfc) k marked)
              (write_card-Holds nfc (on_card (mark 2) k).1 ready),
          at ∙ ap some stays,
          λ i. refl,
        )
  | inr left ↦
      rw (read_block_lem k 2 holds refl, at, left)
        (
          set_state State.modified (set_byte 0 (n - 1) b2),
          change_and_write nfc (change_block 2 (set_byte 0 (n - 1))) (mark 2) k
              (change_block-Makes 2 _ _ refl) (change_block-Makes 2 _ _ refl) holds,
          get_elem?-set_self b2.data_bytes 0 (n - 1) (lt_of_get_elem? b2.data_bytes 0 at),
          λ i. get_elem?-set_ne b2.data_bytes 0 (suc i) (n - 1) (λ e. cc),
        )
]
