-- ===== src/Caisse/OnTag.antt =====
-- A sum that is put on a card (`incrementCredit` of src/caisse.cpp), then a payment with it
-- (`decrementCredit` of src/bar.cpp), and the next time that the card is read.
use programme_bee_gadz.Common.{
  ℕ, ◌≡◌, ◌≢◌, ap, ◌∙◌, Bool, true, false, some, List, [], ◌∷◌, arith, ok, codes, get_elem?, set,
  take, get_elem?-set_self, length-write_at,
}
use programme_bee_gadz.Block.{Block, IsBlock, State, memory}
use programme_bee_gadz.Mifare.{Libnfc}
use programme_bee_gadz.Card.Sectors.{read_sector}
use programme_bee_gadz.Card.Tag.{IsMifare, Stands-length}
use programme_bee_gadz.Card.Tag.Writing.{pushed, stored}
use programme_bee_gadz.Card.Tag.Stored.{pushed_before, stored_self}
use programme_bee_gadz.Mode.{c_string, get_credit}
use programme_bee_gadz.Mode.Members.{FloatUnit, IsFloatUnit, Desk, on_card}
use programme_bee_gadz.Mode.Kinds.{credit_in, credit_block, credit_in-credit_block, get_credit_lem}
use programme_bee_gadz.Mode.OnTag.{CardStands, CardStands-Holds}
use programme_bee_gadz.Bar.{decrement_credit}
use programme_bee_gadz.Bar.OnTag.{with_credit, store_credit-Stands}
use programme_bee_gadz.Bar.OnTag.Again.{credit_read_again}
use programme_bee_gadz.Caisse.{increment_credit}

-- After `incrementCredit` with a sum that is not zero, memory and the tag hold the new credit.
increment_credit-Stands :
    {D F : Type 0} {nfc : Libnfc D} {content : D → ℕ → List ℕ} {opened : D → ℕ → Bool}
    {key uid : List ℕ} (reader : IsMifare nfc content opened key uid) (float : FloatUnit F)
    → IsFloatUnit float
    → (sum : F) (k : Desk D F) {tag : ℕ → List ℕ} (blocks : List (List Block)) (b0 b1 b2 b3 : Block)
    → get_elem? blocks 1 ≡ some (b0 ∷ b1 ∷ b2 ∷ b3 ∷ [])
    → b3.state ≢ State.modified
    → IsBlock b1
    → CardStands content key uid tag blocks k
    → c_string (memory b0) ≡ codes "DEBIT"
    → float.is_zero sum ≡ false
    → CardStands content key uid
        (pushed 4
          (with_credit (float.to_memory (float.add sum (credit_in float b1))) b0 b1 b2 b3)
          tag)
        (set blocks 1
          (with_credit (float.to_memory (float.add sum (credit_in float b1))) b0 b1 b2 b3))
        (increment_credit nfc float sum k).1
unfolding increment_credit
increment_credit-Stands reader float unit sum k blocks b0 b1 b2 b3 here trailer whole v named
      something =
    let holds = CardStands-Holds k blocks here v in
    let reads = get_credit_lem float k b0 b1 (b2 ∷ b3 ∷ []) holds named in
    rw (something, reads)
      ((store_credit-Stands reader float unit blocks b0 b1 b2 b3 here trailer whole
        (float.add sum (credit_in float b1)) k v).1)

-- A sum that is not zero is put on a DEBIT card that stands beside its tag of 64 blocks, whose sector
-- 1 is not to be given another trailer and which has the card's name in block 4 already; the new
-- credit is not zero, and a price is paid with it. Then the card is read again, by any mode, into any
-- memory: the block of the credit on the tag, and `getCredit` of the card that has been read, are the
-- first credit with the sum, less the price.
pub paid_after_recharge :
    {D F : Type 0} {nfc : Libnfc D} {content : D → ℕ → List ℕ} {opened : D → ℕ → Bool}
    {key uid : List ℕ} (reader : IsMifare nfc content opened key uid) (float : FloatUnit F)
    → IsFloatUnit float
    → (sum price : F) (k : Desk D F) {tag : ℕ → List ℕ} (blocks : List (List Block))
      (b0 b1 b2 b3 : Block)
    → get_elem? blocks 1 ≡ some (b0 ∷ b1 ∷ b2 ∷ b3 ∷ [])
    → b3.state ≢ State.modified
    → IsBlock b0
    → IsBlock b1
    → tag 4 ≡ b0.data_bytes
    → CardStands content key uid tag blocks k
    → c_string (memory b0) ≡ codes "DEBIT"
    → float.is_zero sum ≡ false
    → float.is_zero (float.add sum (credit_in float b1)) ≡ false
    → (later : Desk D F) (old : List (List Block))
    → CardStands content key uid
        (content
          (decrement_credit nfc float price (increment_credit nfc float sum k).1).1.env.device)
        old
        later
    → (float.of_memory (
          take 4 (
            content
              (decrement_credit nfc float price (increment_credit nfc float sum k).1).1.env.device
              5))
        ≡ float.subtract (float.add sum (credit_in float b1)) price)
      × ((on_card (read_sector nfc 1) later).0 ≡ ok true)
      × (get_credit float (on_card (read_sector nfc 1) later).1 ≡ (
        ok (float.subtract (float.add sum (credit_in float b1)) price),
        (on_card (read_sector nfc 1) later).1,
      ))
paid_after_recharge {nfc = nfc} reader float unit sum price k {tag} blocks b0 b1 b2 b3 here trailer
      whole0 whole1 on_tag v named something left later old again =
    let total = float.add sum (credit_in float b1) in
    let b1' = credit_block (float.to_memory total) b1 in
    let (c, holds, stands) = v in
    let after =
      increment_credit-Stands reader float unit sum k blocks b0 b1 b2 b3 here trailer whole1 v named
        something in
    let there =
      get_elem?-set_self blocks 1 (b0 ∷ b1' ∷ b2 ∷ b3 ∷ []) (omega (arith, Stands-length stands)) in
    let name_kept =
      pushed_before 5 4 (b1' ∷ b2 ∷ b3 ∷ []) (stored 4 b0 tag) (omega arith)
      ∙ stored_self 4 b0 tag (λ e. on_tag) in
    let credited = credit_in-credit_block float unit total b1 whole1 in
    let paid =
      credit_read_again reader float unit price (increment_credit nfc float sum k).1
        (set blocks 1 (b0 ∷ b1' ∷ b2 ∷ b3 ∷ [])) b0 b1' b2 b3 there trailer whole0
        (length-write_at 0 (float.to_memory total) b1.data_bytes ∙ whole1) name_kept after named
        (ap float.is_zero credited ∙ left) later old again in
    rw credited at paid
