-- ===== src/Bar/Payment.antt =====
-- A payment (the DEBIT branch of `Bar::run`, src/bar.cpp): what is taken off the card.
use programme_bee_gadz.Common.{
  ℕ, ◌≡◌, ◌⊎◌, inl, inr, refl, sym, ap, ◌∙◌, Bool, true, false, not, ◌==◌, Option, none, List, [],
  ◌∷◌, some, Action, Result, ok, threw, fault, continue, codes, if◌then◌else◌, get_elem?,
  Bool-cases, ==_iff,
}
use programme_bee_gadz.Block.{Block, IsBlock, memory}
use programme_bee_gadz.Mifare.{Libnfc}
use programme_bee_gadz.Mode.{c_string, has_ticket, get_ticket, set_command, send_history}
use programme_bee_gadz.Config.{get_conso}
use programme_bee_gadz.Mode.Members.{FloatUnit, IsFloatUnit, Desk, show_info, or_throw}
use programme_bee_gadz.Mode.Memory.{Holds, sector_one, read_block_lem}
use programme_bee_gadz.Mode.Kinds.{credit_in, get_credit_lem, has_ticket_lem}
use programme_bee_gadz.Bar.{
  Orders, counts, BarRun, get_price, send_orders, decrement_credit, settle, pay_ticket, pay_credit,
  pay,
}
use programme_bee_gadz.Bar.Money.{credit_left, decrement_credit_lem}

module _ {D F : Type 0} where
  -- However the call ends, the blocks of sector 1 in memory are the ones from before.
  abbrev KeepsCard : {A : Type 0} → Action (Desk D F) A → Type 0
  KeepsCard m = (k : Desk D F) → sector_one (m k).1.card ≡ sector_one k.card

  then_keeps :
      {A B : Type 0} (f : A → Action (Desk D F) B)
      → ((a : A) → KeepsCard (f a))
      → (r : Result A × Desk D F) → sector_one (continue f r).1.card ≡ sector_one r.1.card
  then_keeps f keeps (ok a, k) = keeps a k
  then_keeps f keeps (threw, k) = refl
  then_keeps f keeps (fault, k) = refl

  or_throw-KeepsCard : {A : Type 0} (o : Option A) → KeepsCard (or_throw {D = D} {F = F} o)
  or_throw-KeepsCard none k = refl
  or_throw-KeepsCard (some a) k = refl

  send_orders-KeepsCard :
      (float : FloatUnit F) (orders : Orders) → KeepsCard (send_orders {D = D} float orders)
  unfolding send_orders send_history
  send_orders-KeepsCard float [] k = refl
  send_orders-KeepsCard float (o ∷ orders) k =
      then_keeps _ (λ c k. send_orders-KeepsCard float orders _)
        (or_throw (get_conso o.0 k.config) k)
      ∙ or_throw-KeepsCard (get_conso o.0 k.config) k

  -- What follows in a round only prints.
  last_keeps :
      (f : Action (BarRun D F) (Unit {0}))
      → ((b : BarRun D F) → sector_one (f b).1.desk.card ≡ sector_one b.desk.card)
      → (r : Result (Unit {0}) × BarRun D F)
      → sector_one (continue (λ u. f) r).1.desk.card ≡ sector_one r.1.desk.card
  last_keeps f keeps (ok u, b) = keeps b
  last_keeps f keeps (threw, b) = refl
  last_keeps f keeps (fault, b) = refl

module _ {D F : Type 0} (nfc : Libnfc D) (float : FloatUnit F) (unit : IsFloatUnit float)
    (b0 b1 : Block) (rest : List Block) (named : c_string (memory b0) ≡ codes "DEBIT")
    (whole : IsBlock b1) where
  settle_lem :
      (enough : Bool) (price : F) (orders : Orders) (k : Desk D F)
      → Holds k (b0 ∷ b1 ∷ rest)
      → (b1' : Block) × Holds (settle nfc float enough price orders k).1 (b0 ∷ b1' ∷ rest)
        × (credit_in float b1'
            ≡ (if enough then credit_left float (credit_in float b1) price else credit_in float b1))
  unfolding settle set_command
  settle_lem true price orders k holds =
      let k1 = (show_info (codes "OK") k).1 in
      let k2 = (set_command (codes "DEBUCQUAGE OK") 3 1 k1).1 in
      let (b1', after, reads) =
        decrement_credit_lem nfc float unit price k2 b0 b1 rest holds named whole in
      let k3 = (decrement_credit nfc float price k2).1 in
      let same_credit = sym (get_credit_lem float k3 b0 b1' rest after named) ∙ reads in
      (
        b1',
        then_keeps (λ u. send_orders float orders) (λ u. send_orders-KeepsCard float orders)
              (decrement_credit nfc float price k2)
            ∙ after,
        cc same_credit,
      )
  settle_lem false price orders k holds = (b1, holds, refl)

  pay_credit_lem :
      (b : BarRun D F) {price : F}
      → Holds b.desk (b0 ∷ b1 ∷ rest)
      → get_price float b.conso b.desk ≡ (ok price, b.desk)
      → (b1' : Block) × Holds (pay_credit nfc float b).1.desk (b0 ∷ b1' ∷ rest)
        × (credit_in float b1' ≡ (
            if float.at_least (credit_in float b1) price
            then credit_left float (credit_in float b1) price
            else credit_in float b1))
  unfolding pay_credit
  pay_credit_lem b {price} holds priced =
      rw (get_credit_lem float b.desk b0 b1 rest holds named, priced)
        (settle_lem (float.at_least (credit_in float b1) price) price b.conso b.desk holds)

module _ {D F : Type 0} (nfc : Libnfc D) (float : FloatUnit F) (b0 b1 b2 : Block)
    (rest : List Block) (named : c_string (memory b0) ≡ codes "DEBIT") (b : BarRun D F) {n t : ℕ}
    (holds : Holds b.desk (b0 ∷ b1 ∷ b2 ∷ rest)) (first : get_elem? b2.data_bytes 0 ≡ some n)
    (second : get_elem? b2.data_bytes 1 ≡ some t) where
  reads_ticket : (has : Bool) → (not (n == 0)) ≡ has → has_ticket b.desk ≡ (ok has, b.desk)
  reads_ticket has e =
      has_ticket_lem b.desk b0 b1 b2 rest holds named first ∙ ap (λ x. (ok x, b.desk)) e

  reads_id :
      (has : Bool) → (not (n == 0)) ≡ has → get_ticket b.desk ≡ (ok (if has then t else 0), b.desk)
  unfolding get_ticket
  reads_id true e =
      let reads = reads_ticket true e in rw (reads, read_block_lem b.desk 2 holds refl, second) refl
  reads_id false e = let reads = reads_ticket false e in rw reads refl

  no_ticket : n ≡ 0 → pay_ticket nfc float b ≡ (ok tt, b)
  unfolding pay_ticket
  no_ticket e =
      let reads = reads_ticket false (rw e refl) in
      let id = reads_id false (rw e refl) in rw (reads, id) refl

  other_ticket :
      (not (n == 0)) ≡ true → counts t b.conso ≡ false → pay_ticket nfc float b ≡ (ok tt, b)
  unfolding pay_ticket
  other_ticket e unpaid =
      let reads = reads_ticket true e in let id = reads_id true e in rw (reads, id, unpaid) refl

  pub ticket_unused : (n ≡ 0) ⊎ (counts t b.conso ≡ false) → pay_ticket nfc float b ≡ (ok tt, b)
  ticket_unused (inl e) = no_ticket e
  ticket_unused (inr unpaid) = elim (Bool-cases (n == 0)) [
    | inl e ↦ no_ticket ((==_iff n 0).0 e)
    | inr e ↦ other_ticket (rw e refl) unpaid
  ]

-- A DEBIT card with its blocks in memory, without a ticket or with one for a drink that is not
-- ordered, and orders that the configuration gives a price: after the payment, whatever the reader
-- answers, the credit in memory is lower by the price exactly if it was at least the price, a credit of
-- zero stays, and no other block has changed.
pub pay_lem :
    {D F : Type 0} (nfc : Libnfc D) (float : FloatUnit F)
    → IsFloatUnit float
    → (timer : ℕ) (b : BarRun D F) (b0 b1 b2 : Block) (rest : List Block) {n t : ℕ} {price : F}
    → Holds b.desk (b0 ∷ b1 ∷ b2 ∷ rest)
    → c_string (memory b0) ≡ codes "DEBIT"
    → IsBlock b1
    → get_elem? b2.data_bytes 0 ≡ some n
    → get_elem? b2.data_bytes 1 ≡ some t
    → (n ≡ 0) ⊎ (counts t b.conso ≡ false)
    → get_price float b.conso b.desk ≡ (ok price, b.desk)
    → (b1' : Block) × Holds (pay nfc float timer b).1.desk (b0 ∷ b1' ∷ b2 ∷ rest)
      × (credit_in float b1' ≡ (
          if float.at_least (credit_in float b1) price
          then credit_left float (credit_in float b1) price
          else credit_in float b1))
unfolding pay set_command
pay_lem nfc float unit timer b b0 b1 b2 rest holds named whole first second unpaid priced =
    let (b1', after, credit) =
      pay_credit_lem nfc float unit b0 b1 (b2 ∷ rest) named whole b holds priced in
    (
      b1',
      rw (ticket_unused nfc float b0 b1 b2 rest named b holds first second unpaid)
          (last_keeps _ (λ b. refl) (pay_credit nfc float b) ∙ after),
      credit,
    )
