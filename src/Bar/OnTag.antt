-- ===== src/Bar/OnTag.antt =====
-- A payment with the credit of a card (`decrementCredit` of src/bar.cpp), and a sum that is put on one
-- (`incrementCredit` of src/caisse.cpp): what the tag holds afterwards.
pub mod Again
use programme_bee_gadz.Common.{
  ℕ, ◌≡◌, ◌≢◌, refl, ap, ◌∙◌, Bool, false, some, List, [], ◌∷◌, arith, ◌>>=◌, codes, get_elem?, set,
  bind_ok, ok, set-set, get_elem?-set_self, take, write_at, length-write_at,
}
use programme_bee_gadz.Block.{Block, IsBlock, State, memory}
use programme_bee_gadz.Mifare.{Libnfc}
use programme_bee_gadz.Card.Tag.{IsMifare, Stands-length}
use programme_bee_gadz.Card.Tag.Writing.{pushed, stored, AreWritable}
use programme_bee_gadz.Card.Tag.Stored.{pushed_before}
use programme_bee_gadz.Mode.{c_string, put_credit, mark, write_card}
use programme_bee_gadz.Mode.Members.{FloatUnit, IsFloatUnit, Desk, on_card}
use programme_bee_gadz.Mode.Memory.{Holds}
use programme_bee_gadz.Mode.Kinds.{credit_in, credit_block, credit_in-credit_block, get_credit_lem}
use programme_bee_gadz.Mode.OnTag.{
  CardStands, CardStands-Holds, change_block-Stands, on_card-Stands, write_card-Stands,
}
use programme_bee_gadz.Mode.Aside.{Aside, then_Aside, on_card-Aside, write_card-Aside}
use programme_bee_gadz.Bar.{store_credit, decrement_credit}

-- The four blocks of sector 1 with another credit.
abbrev pub with_credit : List ℕ → Block → Block → Block → Block → List Block
with_credit bytes b0 b1 b2 b3 = b0 ∷ credit_block bytes b1 ∷ b2 ∷ b3 ∷ []

module _ {F : Type 0} (float : FloatUnit F) (b0 b1 b2 b3 : Block) where
  writable :
      (credit : F)
      → b3.state ≢ State.modified
      → AreWritable 4 (with_credit (float.to_memory credit) b0 b1 b2 b3)
  writable credit trailer = (
    λ e. (omega arith, omega arith, omega arith),
    (
      λ e. (omega arith, omega arith, omega arith),
      (λ e. (omega arith, omega arith, omega arith), (λ e. absurd (trailer e), tt)),
    ),
  )

  credit_pushed :
      (tag : ℕ → List ℕ) (credit : F)
      → IsFloatUnit float
      → IsBlock b1
      → float.of_memory (take 4 (pushed 4 (with_credit (float.to_memory credit) b0 b1 b2 b3) tag 5))
        ≡ credit
  credit_pushed tag credit unit whole =
      let cb = credit_block (float.to_memory credit) b1 in
      ap (λ l. float.of_memory (take 4 l))
        (pushed_before 6 5 (b2 ∷ b3 ∷ []) (stored 5 cb (stored 4 b0 tag)) (omega arith))
      ∙ credit_in-credit_block float unit credit b1 whole

module _ {D F : Type 0} {nfc : Libnfc D} {content : D → ℕ → List ℕ} {opened : D → ℕ → Bool}
    {key uid : List ℕ} (reader : IsMifare nfc content opened key uid) (float : FloatUnit F)
    (unit : IsFloatUnit float) {tag : ℕ → List ℕ} (blocks : List (List Block)) (b0 b1 b2 b3 : Block)
    (here : get_elem? blocks 1 ≡ some (b0 ∷ b1 ∷ b2 ∷ b3 ∷ []))
    (trailer : b3.state ≢ State.modified) (whole : IsBlock b1) where
  -- The credit goes into the memory of the card and on the tag.
  pub store_credit-Stands :
      (credit : F) (k : Desk D F)
      → CardStands content key uid tag blocks k
      → ((store_credit nfc float credit k).0 ≡ ok tt)
        × CardStands content key uid
            (pushed 4 (with_credit (float.to_memory credit) b0 b1 b2 b3) tag)
            (set blocks 1 (with_credit (float.to_memory credit) b0 b1 b2 b3))
            (store_credit nfc float credit k).1
  unfolding store_credit
  store_credit-Stands credit k v =
      let bytes = float.to_memory credit in
      let xs = b0 ∷ b1 ∷ b2 ∷ b3 ∷ [] in
      let filled : List Block =
        b0 ∷ record b1 { data_bytes = write_at 0 bytes b1.data_bytes } ∷ b2 ∷ b3 ∷ [] in
      let long = length-write_at 0 bytes b1.data_bytes ∙ whole in
      let (c, holds, stands) = v in
      let sixteen = Stands-length stands in
      let (put, v') =
        on_card-Stands (put_credit float credit) tt k
          (λ h v. change_block-Stands 1 _ blocks h v here refl long) v in
      let k' = (on_card (put_credit float credit) k).1 in
      let there = get_elem?-set_self blocks 1 filled (omega arith) in
      let (marked, v'') =
        on_card-Stands (mark 1) tt k'
          (λ h v. change_block-Stands 1 _ (set blocks 1 filled) h v there refl long) v' in
      let again = set-set blocks 1 filled (with_credit bytes b0 b1 b2 b3) in
      let at_last = get_elem?-set_self blocks 1 (with_credit bytes b0 b1 b2 b3) (omega arith) in
      rw
        (
          bind_ok (on_card (put_credit float credit))
              (λ u. on_card (mark 1) >>= λ u. write_card nfc) k put,
          bind_ok (on_card (mark 1)) (λ u. write_card nfc) k' marked,
        )
        (write_card-Stands reader (on_card (mark 1) k').1 at_last
          (writable float b0 b1 b2 b3 credit trailer) (rw again at v''))

  stored_credit :
      (credit : F) (k : Desk D F)
      → CardStands content key uid tag blocks k
      → float.of_memory (take 4 (content (store_credit nfc float credit k).1.env.device 5)) ≡ credit
  stored_credit credit k v =
      let (done, (c, holds, v')) = store_credit-Stands credit k v in
      ap (λ l. float.of_memory (take 4 l)) (v'.on_tag 5)
      ∙ credit_pushed float b0 b1 b2 b3 tag credit unit whole

module _ {D F : Type 0} where
  pub store_credit-Aside :
      (nfc : Libnfc D) (float : FloatUnit F) (credit : F) (k : Desk D F)
      → Aside k (store_credit nfc float credit k).1
  unfolding store_credit
  store_credit-Aside nfc float credit k =
      then_Aside _
        (λ u k.
          then_Aside _ (λ u k. write_card-Aside nfc k) k (on_card (mark 1) k)
            (on_card-Aside (mark 1) k))
        k (on_card (put_credit float credit) k) (on_card-Aside (put_credit float credit) k)

-- A DEBIT card with a credit that is not zero, beside its tag of 64 blocks, whose sector 1 is not to
-- be given another trailer: after `decrementCredit`, the credit that stands in block 5 of the tag is
-- the card's credit less the price, the tag has otherwise taken only the modified blocks of the
-- sector, and memory holds the new credit.
pub decrement_credit_on_tag :
    {D F : Type 0} {nfc : Libnfc D} {content : D → ℕ → List ℕ} {opened : D → ℕ → Bool}
    {key uid : List ℕ} (reader : IsMifare nfc content opened key uid) (float : FloatUnit F)
    → IsFloatUnit float
    → (price : F) (k : Desk D F) {tag : ℕ → List ℕ} (blocks : List (List Block))
      (b0 b1 b2 b3 : Block)
    → get_elem? blocks 1 ≡ some (b0 ∷ b1 ∷ b2 ∷ b3 ∷ [])
    → b3.state ≢ State.modified
    → IsBlock b1
    → CardStands content key uid tag blocks k
    → c_string (memory b0) ≡ codes "DEBIT"
    → float.is_zero (credit_in float b1) ≡ false
    → (float.of_memory (take 4 (content (decrement_credit nfc float price k).1.env.device 5))
        ≡ float.subtract (credit_in float b1) price)
      × CardStands content key uid
          (pushed 4
            (with_credit (float.to_memory (float.subtract (credit_in float b1) price)) b0 b1 b2 b3)
            tag)
          (set blocks 1
            (with_credit (float.to_memory (float.subtract (credit_in float b1) price)) b0 b1 b2 b3))
          (decrement_credit nfc float price k).1
unfolding decrement_credit
decrement_credit_on_tag {nfc = nfc} reader float unit price k blocks b0 b1 b2 b3 here trailer whole
      v named left =
    let paid = float.subtract (credit_in float b1) price in
    let holds = CardStands-Holds k blocks here v in
    let reads = get_credit_lem float k b0 b1 (b2 ∷ b3 ∷ []) holds named in
    rw (reads, left)
      (
        stored_credit reader float unit blocks b0 b1 b2 b3 here trailer whole paid k v,
        (store_credit-Stands reader float unit blocks b0 b1 b2 b3 here trailer whole paid k v).1,
      )

-- The same payment returns.
pub decrement_credit_returns :
    {D F : Type 0} {nfc : Libnfc D} {content : D → ℕ → List ℕ} {opened : D → ℕ → Bool}
    {key uid : List ℕ} (reader : IsMifare nfc content opened key uid) (float : FloatUnit F)
    → IsFloatUnit float
    → (price : F) (k : Desk D F) {tag : ℕ → List ℕ} (blocks : List (List Block))
      (b0 b1 b2 b3 : Block)
    → get_elem? blocks 1 ≡ some (b0 ∷ b1 ∷ b2 ∷ b3 ∷ [])
    → b3.state ≢ State.modified
    → IsBlock b1
    → CardStands content key uid tag blocks k
    → c_string (memory b0) ≡ codes "DEBIT"
    → float.is_zero (credit_in float b1) ≡ false
    → (decrement_credit nfc float price k).0 ≡ ok tt
unfolding decrement_credit
decrement_credit_returns reader float unit price k blocks b0 b1 b2 b3 here trailer whole v named
      left =
    let paid = float.subtract (credit_in float b1) price in
    let holds = CardStands-Holds k blocks here v in
    let reads = get_credit_lem float k b0 b1 (b2 ∷ b3 ∷ []) holds named in
    rw (reads, left)
      ((store_credit-Stands reader float unit blocks b0 b1 b2 b3 here trailer whole paid k v).0)
