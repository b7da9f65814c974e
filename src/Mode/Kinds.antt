-- ===== src/Mode/Kinds.antt =====
-- The kinds of cards (`isAdmin`, `isSOS`, `isDebit`, `isConso` of src/mode.cpp) and the card that
-- `createDebit` makes.
use programme_bee_gadz.Common.{
  take-write_at, ℕ, ◌≤◌, ◌≡◌, inl, inr, refl, sym, ap, ◌∙◌, true, false, ◌==◌, some, List, [], ◌∷◌,
  arith, Result, ok, threw, fault, pure, bind_ok, codes, if◌then◌else◌, set, get_elem?, take,
  write_at, length, same_text, not, continue, get_elem?-set_self, get_elem?-set_ne, Bool-cases,
  ==_iff,
}
use mathlib.Core.Path.{ap₂}
use programme_bee_gadz.Block.{Block, IsBlock, State, set_byte, set_state, memory}
use programme_bee_gadz.Mifare.{Libnfc}
use programme_bee_gadz.Mode.{
  c_string, write_name, read_block, test_card, is_debit, has_ticket, get_ticket, get_credit,
  change_block, mark, put_credit, fill_debit, create_debit, write_card,
}
use programme_bee_gadz.Mode.Members.{FloatUnit, IsFloatUnit, Desk, on_card}
use programme_bee_gadz.Mode.Memory.{
  Holds, Makes, then_Makes, change_block-Makes, read_block_lem, on_card-Makes, write_card-Holds,
}

pub same_text_eq : (xs ys : List ℕ) → same_text xs ys ≡ true → xs ≡ ys
same_text_eq [] [] e = refl
same_text_eq [] (y ∷ ys) e = cc
same_text_eq (x ∷ xs) [] e = cc
same_text_eq (x ∷ xs) (y ∷ ys) e = elim (Bool-cases (x == y)) [
  | inl same ↦ ap₂ (λ a rest. a ∷ rest) ((==_iff x y).0 same) (same_text_eq xs ys (rw same at e))
  | inr other ↦ cc (rw other at e)
]

-- The first six bytes of a block, for the names.
pub six_of :
    (xs : List ℕ)
    → 6 ≤ length xs
    → (a b c d e f : ℕ) × (rest : List ℕ) × (xs ≡ a ∷ b ∷ c ∷ d ∷ e ∷ f ∷ rest)
six_of (a ∷ b ∷ c ∷ d ∷ e ∷ f ∷ rest) h = (a, b, c, d, e, f, rest, refl)
six_of [] h = absurd (omega arith)
six_of (a ∷ []) h = absurd (omega arith)
six_of (a ∷ b ∷ []) h = absurd (omega arith)
six_of (a ∷ b ∷ c ∷ []) h = absurd (omega arith)
six_of (a ∷ b ∷ c ∷ d ∷ []) h = absurd (omega arith)
six_of (a ∷ b ∷ c ∷ d ∷ e ∷ []) h = absurd (omega arith)

abbrev debit_block : Block → Block
debit_block b = set_state State.modified (write_name (codes "DEBIT") b)

debit_name : (b : Block) → IsBlock b → c_string (memory (debit_block b)) ≡ codes "DEBIT"
debit_name b whole =
    let (x0, x1, x2, x3, x4, x5, rest, e) = six_of b.data_bytes (omega arith) in rw e refl

abbrev emptied_block : Block → Block
emptied_block b = set_state State.modified (set_byte 1 0 (set_byte 0 0 b))

abbrev pub credit_block : List ℕ → Block → Block
credit_block bytes b =
    set_state State.modified (record b { data_bytes = write_at 0 bytes b.data_bytes })

module _ {D F : Type 0} where
  pub test_card_lem :
      (str : List ℕ) (k : Desk D F) {xs : List Block} {b : Block}
      → Holds k xs
      → get_elem? xs 0 ≡ some b
      → test_card str k ≡ (ok (same_text str (c_string (memory b))), k)
  unfolding test_card
  test_card_lem str k holds at = rw (read_block_lem k 0 holds at) refl

module _ {D F : Type 0} (float : FloatUnit F) where
  fill_debit-Makes :
      (b0 b1 b2 : Block) (rest : List Block)
      → Makes {D = D} (fill_debit float) (b0 ∷ b1 ∷ b2 ∷ rest) (
          debit_block b0
          ∷ credit_block (float.to_memory float.zero_float) b1
          ∷ emptied_block b2
          ∷ rest)
  unfolding fill_debit
  fill_debit-Makes b0 b1 b2 rest =
      then_Makes (change_block 0 (write_name (codes "DEBIT"))) _ (change_block-Makes 0 _ _ refl) (
        then_Makes (put_credit float float.zero_float) _ (change_block-Makes 1 _ _ refl) (
          then_Makes (change_block 2 (set_byte 0 0)) _ (change_block-Makes 2 _ _ refl) (
            then_Makes (change_block 2 (set_byte 1 0)) _ (change_block-Makes 2 _ _ refl) (
              then_Makes (mark 1) _ (change_block-Makes 1 _ _ refl) (
                then_Makes (mark 0) (mark 2) (change_block-Makes 0 _ _ refl)
                  (change_block-Makes 2 _ _ refl))))))

  create_debit-Holds :
      (nfc : Libnfc D) (k : Desk D F) (b0 b1 b2 : Block) (rest : List Block)
      → Holds k (b0 ∷ b1 ∷ b2 ∷ rest)
      → Holds (create_debit nfc float k).1 (
          debit_block b0
          ∷ credit_block (float.to_memory float.zero_float) b1
          ∷ emptied_block b2
          ∷ rest)
  unfolding create_debit
  create_debit-Holds nfc k b0 b1 b2 rest holds =
      let (done, made) =
        on_card-Makes (fill_debit float) k (fill_debit-Makes b0 b1 b2 rest) holds in
      rw (bind_ok (on_card (fill_debit float)) (λ u. write_card nfc) k done)
        (write_card-Holds nfc (on_card (fill_debit float) k).1 made)

module _ {F : Type 0} (float : FloatUnit F) where
  -- The credit that the bytes of a block are.
  abbrev pub credit_in : Block → F
  credit_in b = float.of_memory (take 4 b.data_bytes)

  pub credit_in-credit_block :
      IsFloatUnit float
      → (x : F) (b : Block) → IsBlock b
      → credit_in (credit_block (float.to_memory x) b) ≡ x
  credit_in-credit_block unit x b whole =
      let n = unit.four_bytes x in
      let first = take-write_at (float.to_memory x) b.data_bytes (omega arith) in
      let first_four : take 4 (write_at 0 (float.to_memory x) b.data_bytes) ≡ float.to_memory x =
        rw n at first in
      ap float.of_memory first_four ∙ unit.of_to_memory x

module _ {D F : Type 0} (float : FloatUnit F) where
  pub get_credit_lem :
      (k : Desk D F) (b0 b1 : Block) (rest : List Block)
      → Holds k (b0 ∷ b1 ∷ rest)
      → c_string (memory b0) ≡ codes "DEBIT"
      → get_credit float k ≡ (ok (credit_in float b1), k)
  unfolding get_credit is_debit
  get_credit_lem k b0 b1 rest holds named =
      let debit = test_card_lem (codes "DEBIT") k holds refl in
      rw (debit, named, read_block_lem k 1 holds refl) refl

module _ {D F : Type 0} where
  pub has_ticket_lem :
      (k : Desk D F) (b0 b1 b2 : Block) (rest : List Block) {n : ℕ}
      → Holds k (b0 ∷ b1 ∷ b2 ∷ rest)
      → c_string (memory b0) ≡ codes "DEBIT"
      → get_elem? b2.data_bytes 0 ≡ some n
      → has_ticket k ≡ (ok (not (n == 0)), k)
  unfolding has_ticket is_debit
  has_ticket_lem k b0 b1 b2 rest holds named first =
      let debit = test_card_lem (codes "DEBIT") k holds refl in
      rw (debit, named, read_block_lem k 2 holds refl, first) refl

  pub get_ticket_lem :
      (k : Desk D F) (b0 b1 b2 : Block) (rest : List Block) {n t : ℕ}
      → Holds k (b0 ∷ b1 ∷ b2 ∷ rest)
      → c_string (memory b0) ≡ codes "DEBIT"
      → get_elem? b2.data_bytes 0 ≡ some n
      → get_elem? b2.data_bytes 1 ≡ some t
      → get_ticket k ≡ (ok (if n == 0 then 0 else t), k)
  unfolding get_ticket
  get_ticket_lem k b0 b1 b2 rest {n} holds named first second = elim (Bool-cases (n == 0)) [
    | inl e ↦ let reads = has_ticket_lem k b0 b1 b2 rest holds named first in rw (reads, e) refl
    | inr e ↦
        let reads = has_ticket_lem k b0 b1 b2 rest holds named first in
        rw (reads, e, read_block_lem k 2 holds refl, second) refl
  ]

  find_text :
      (str : List ℕ) (r : Result Block × Desk D F)
      → (continue (λ b. pure (same_text str (c_string (memory b)))) r).0 ≡ ok true
      → (b : Block) × (r.0 ≡ ok b) × (str ≡ c_string (memory b))
  find_text str (ok b, k) e = (b, refl, same_text_eq str (c_string (memory b)) cc)
  find_text str (threw, k) e = cc
  find_text str (fault, k) e = cc

  -- `testCard` accepts one text at most: a card is not of two of the kinds ADMIN, SOS, DEBIT and CONSO.
  pub test_card_unique :
      (str other : List ℕ) (k : Desk D F)
      → (test_card str k).0 ≡ ok true
      → (test_card other k).0 ≡ ok true
      → str ≡ other
  unfolding test_card
  test_card_unique str other k e f =
      let (b, at, s) = find_text str (read_block 0 k) e in
      let (b', at', s') = find_text other (read_block 0 k) f in
      let same : b ≡ b' = cc in s ∙ ap (λ b. c_string (memory b)) same ∙ sym s'

-- A card whose sector 1 has its blocks in memory: after `createDebit`, whatever the reader answers, it
-- is a DEBIT card in memory, with a credit of zero and no ticket.
pub create_debit_lem :
    {D F : Type 0} (nfc : Libnfc D) (float : FloatUnit F)
    → IsFloatUnit float
    → (k : Desk D F) (b0 b1 b2 : Block) (rest : List Block) → Holds k (b0 ∷ b1 ∷ b2 ∷ rest)
    → IsBlock b0
    → IsBlock b1
    → IsBlock b2
    → (is_debit (create_debit nfc float k).1 ≡ (ok true, (create_debit nfc float k).1))
      × (get_credit float (create_debit nfc float k).1
          ≡ (ok float.zero_float, (create_debit nfc float k).1))
      × (has_ticket (create_debit nfc float k).1 ≡ (ok false, (create_debit nfc float k).1))
unfolding is_debit
create_debit_lem nfc float unit k b0 b1 b2 rest holds whole0 whole1 whole2 =
    let k' = (create_debit nfc float k).1 in
    let made = create_debit-Holds float nfc k b0 b1 b2 rest holds in
    let named = debit_name b0 whole0 in
    let cleared = get_elem?-set_self b2.data_bytes 0 0 (omega arith) in
    (
      rw (test_card_lem (codes "DEBIT") k' made refl, named) refl,
      get_credit_lem float k' _ _ _ made named
          ∙ ap (λ x. (ok x, k')) (credit_in-credit_block float unit float.zero_float b1 whole1),
      has_ticket_lem k' _ _ _ _ made named
          (get_elem?-set_ne (set b2.data_bytes 0 0) 1 0 0 (λ e. cc) ∙ cleared),
    )
