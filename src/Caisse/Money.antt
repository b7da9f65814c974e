-- ===== src/Caisse/Money.antt =====
-- What `incrementCredit` (src/caisse.cpp) does to the card in memory.
use programme_bee_gadz.Common.{
  ◌≡◌, inl, inr, ap, ◌∙◌, List, ◌∷◌, ok, codes, if◌then◌else◌, Bool-cases,
}
use programme_bee_gadz.Block.{Block, IsBlock, memory}
use programme_bee_gadz.Mifare.{Libnfc}
use programme_bee_gadz.Mode.{c_string, get_credit}
use programme_bee_gadz.Mode.Members.{FloatUnit, IsFloatUnit, Desk}
use programme_bee_gadz.Mode.Memory.{Holds}
use programme_bee_gadz.Mode.Kinds.{credit_in, credit_block, credit_in-credit_block, get_credit_lem}
use programme_bee_gadz.Bar.{store_credit}
use programme_bee_gadz.Bar.Money.{store_credit-Holds}
use programme_bee_gadz.Caisse.{increment_credit}

-- A DEBIT card with its blocks in memory: after `incrementCredit`, whatever the reader answers, the
-- credit in memory is higher by the sum, the same for a sum of zero, and no other block has changed.
pub increment_credit_lem :
    {D F : Type 0} (nfc : Libnfc D) (float : FloatUnit F)
    → IsFloatUnit float
    → (sum : F) (k : Desk D F) (b0 b1 : Block) (rest : List Block) → Holds k (b0 ∷ b1 ∷ rest)
    → c_string (memory b0) ≡ codes "DEBIT"
    → IsBlock b1
    → (b1' : Block) × Holds (increment_credit nfc float sum k).1 (b0 ∷ b1' ∷ rest)
      × (get_credit float (increment_credit nfc float sum k).1 ≡ (
        ok (if float.is_zero sum then credit_in float b1 else float.add sum (credit_in float b1)),
        (increment_credit nfc float sum k).1,
      ))
unfolding increment_credit
increment_credit_lem {D} {F} nfc float unit sum k b0 b1 rest holds named whole =
    elim (Bool-cases (float.is_zero sum)) [
      | inl nothing ↦ rw nothing (b1, holds, reads)
      | inr something ↦
          let total = float.add sum (credit_in float b1) in
          let after = store_credit-Holds nfc float total k b0 b1 rest holds in
          let k' = (store_credit nfc float total k).1 in
          rw (something, reads)
            (
              credit_block (float.to_memory total) b1,
              after,
              get_credit_lem float k' b0 _ rest after named
                  ∙ ap (λ x. (ok x, k')) (credit_in-credit_block float unit total b1 whole),
            )
    ]
  where
    reads : get_credit float k ≡ (ok (credit_in float b1), k)
    reads = get_credit_lem float k b0 b1 rest holds named
