-- ===== src/Bar/OnTag/Again.antt =====
-- A payment with the credit of a card (`decrementCredit` of src/bar.cpp), and the next time that the
-- card is read.
use programme_bee_gadz.Common.{
  ℕ, ◌<◌, ◌≡◌, ◌≢◌, refl, ap, ◌∙◌, Bool, true, false, some, List, [], ◌∷◌, ◌++◌, arith, ok, codes,
  length, get_elem?, set, take, get_elem?-set_self, Bool-cases, inl, inr, ◌==◌,
}
use programme_bee_gadz.Block.{Block, IsBlock, State, memory}
use programme_bee_gadz.Card.Sectors.{read_sector}
use programme_bee_gadz.Card.Tag.{IsMifare, Stands-length}
use programme_bee_gadz.Card.Tag.Fetching.{clean_block}
use programme_bee_gadz.Card.Tag.Reading.{sector_of, read_sector-Stands}
use programme_bee_gadz.Card.Tag.Writing.{stored}
use programme_bee_gadz.Card.Tag.Stored.{pushed_before, stored_self}
use programme_bee_gadz.Mifare.{Libnfc}
use programme_bee_gadz.Mode.{c_string, get_credit}
use programme_bee_gadz.Mode.Members.{FloatUnit, IsFloatUnit, Desk, on_card}
use programme_bee_gadz.Mode.Kinds.{credit_in, credit_block, get_credit_lem}
use programme_bee_gadz.Mode.OnTag.{CardStands, CardStands-Holds, on_card-Stands}
use programme_bee_gadz.Bar.{decrement_credit}
use programme_bee_gadz.Bar.OnTag.{decrement_credit_on_tag}

-- A text that ends inside the bytes does not depend on what follows them.
pub c_string-append :
    (xs ys zs : List ℕ)
    → length (c_string (xs ++ ys)) < length xs
    → c_string (xs ++ zs) ≡ c_string (xs ++ ys)
c_string-append [] ys zs h = absurd (omega arith)
c_string-append (x ∷ xs) ys zs h = elim (Bool-cases (x == 0)) [
  | inl ends ↦ rw ends refl
  | inr goes_on ↦
      let shorter = rw goes_on at h in
      rw goes_on (ap (λ rest. x ∷ rest) (c_string-append xs ys zs (omega arith)))
]

-- A payment with a DEBIT card's credit that is not zero, as in `decrement_credit_on_tag`, where the
-- tag has the card's name in block 4 already; then the card is read again, by any mode, into any
-- memory: the block of the credit on the tag, and `getCredit` of the card that has been read, are the
-- credit less the price.
pub credit_read_again :
    {D F : Type 0} {nfc : Libnfc D} {content : D → ℕ → List ℕ} {opened : D → ℕ → Bool}
    {key uid : List ℕ} (reader : IsMifare nfc content opened key uid) (float : FloatUnit F)
    → IsFloatUnit float
    → (price : F) (k : Desk D F) {tag : ℕ → List ℕ} (blocks : List (List Block))
      (b0 b1 b2 b3 : Block)
    → get_elem? blocks 1 ≡ some (b0 ∷ b1 ∷ b2 ∷ b3 ∷ [])
    → b3.state ≢ State.modified
    → IsBlock b0
    → IsBlock b1
    → tag 4 ≡ b0.data_bytes
    → CardStands content key uid tag blocks k
    → c_string (memory b0) ≡ codes "DEBIT"
    → float.is_zero (credit_in float b1) ≡ false
    → (later : Desk D F) (old : List (List Block))
    → CardStands content key uid
        (content (decrement_credit nfc float price k).1.env.device)
        old
        later
    → (float.of_memory (take 4 (content (decrement_credit nfc float price k).1.env.device 5))
        ≡ float.subtract (credit_in float b1) price)
      × ((on_card (read_sector nfc 1) later).0 ≡ ok true)
      × (get_credit float (on_card (read_sector nfc 1) later).1
          ≡ (ok (float.subtract (credit_in float b1) price), (on_card (read_sector nfc 1) later).1))
credit_read_again {nfc = nfc} {content = content} reader float unit price k {tag} blocks b0 b1 b2 b3
      here trailer whole0 whole1 on_tag v named left later old again =
    let paid = float.subtract (credit_in float b1) price in
    let d = (decrement_credit nfc float price k).1.env.device in
    let (stored_there, (c, holds, stands)) =
      decrement_credit_on_tag reader float unit price k blocks b0 b1 b2 b3 here trailer whole1 v
        named left in
    let name_kept : content d 4 ≡ b0.data_bytes =
      stands.on_tag 4
      ∙ pushed_before 5 4 (credit_block (float.to_memory paid) b1 ∷ b2 ∷ b3 ∷ []) (stored 4 b0 tag)
          (omega arith)
      ∙ stored_self 4 b0 tag (λ e. on_tag) in
    let short : length (c_string (memory b0)) < length b0.data_bytes =
      rw (named, whole0) (omega arith) in
    let named_there : c_string (memory (clean_block (content d 4))) ≡ codes "DEBIT" =
      ap (λ bytes. c_string (memory (clean_block bytes))) name_kept
      ∙ c_string-append b0.data_bytes _ _ short
      ∙ named in
    let (c2, holds2, stands2) = again in
    let (read, again') =
      on_card-Stands (read_sector nfc 1) true later
        (λ h v. read_sector-Stands reader 1 h (omega arith) v) again in
    let at =
      get_elem?-set_self old 1 (sector_of (content d) 1) (omega (arith, Stands-length stands2)) in
    let k2 = (on_card (read_sector nfc 1) later).1 in
    let in_memory = CardStands-Holds k2 (set old 1 (sector_of (content d) 1)) at again' in
    (
      stored_there,
      read,
      get_credit_lem float k2 _ _ _ in_memory named_there ∙ ap (λ x. (ok x, k2)) stored_there,
    )
