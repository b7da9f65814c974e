-- ===== src/Bar/Visit/Paying.antt =====
-- The payment of the orders (the DEBIT branch of `Bar::run`, src/bar.cpp) with a card that stands
-- beside its tag: what the tag, the orders and the database have afterwards.
use programme_bee_gadz.Common.{
  ℕ, ◌≡◌, ◌≢◌, ◌⊎◌, refl, sym, ap, ◌∙◌, Bool, true, false, Option, none, some, List, [], ◌∷◌, ◌++◌,
  Result, ok, codes, get_elem?, set, take, Option-cases, inl, inr,
}
use mathlib.Core.Path.{subst}
use programme_bee_gadz.Block.{Block, IsBlock, State, memory}
use programme_bee_gadz.Printer.Numerals.{decimal_of}
use programme_bee_gadz.Mifare.{Libnfc}
use programme_bee_gadz.Card.Tag.{IsMifare}
use programme_bee_gadz.Card.Tag.Writing.{pushed}
use programme_bee_gadz.Config.{Config, get_conso}
use programme_bee_gadz.Mode.{c_string, set_command, send_history}
use programme_bee_gadz.Mode.Members.{FloatUnit, IsFloatUnit, Desk, show_info}
use programme_bee_gadz.Mode.Kinds.{credit_in, get_credit_lem}
use programme_bee_gadz.Mode.OnTag.{CardStands, CardStands-Holds}
use programme_bee_gadz.Mode.Aside.{history_line, Aside}
use programme_bee_gadz.Bar.{
  Orders, counts, BarRun, price_from, get_price, send_orders, decrement_credit, settle, pay_credit,
  pay,
}
use programme_bee_gadz.Bar.Payment.{ticket_unused}
use programme_bee_gadz.Bar.OnTag.{
  with_credit, store_credit-Aside, decrement_credit_on_tag, decrement_credit_returns,
}

-- The line of the database for `n` drinks of one kind, before the lines that are there
abbrev receipt :
    {F : Type 0} → FloatUnit F → List ℕ → Option (List ℕ × F) → ℕ → List (List ℕ) → List (List ℕ)
receipt float pianss none n old = old
receipt float pianss (some c) n old =
    history_line float pianss (c.0 ++ (codes " x" ++ decimal_of n)) (float.times c.1 n) ∷ old

-- One line of the database for each kind of drink that is ordered, latest first
abbrev pub receipts : {F : Type 0} → FloatUnit F → Config F → Orders → List (List ℕ) → List (List ℕ)
receipts float c [] old = old
receipts float c (o ∷ orders) old =
    receipts float c orders (receipt float c.pianss (get_conso o.0 c) o.1 old)

-- Every kind that is ordered is a drink of the configuration.
abbrev AreKnown : {F : Type 0} → Config F → Orders → Type 0
AreKnown c [] = Unit
AreKnown {F} c (o ∷ orders) = ((d : List ℕ × F) × (get_conso o.0 c ≡ some d)) × AreKnown c orders

module _ {D F : Type 0} (float : FloatUnit F) where
  -- Orders that have a price are of known drinks.
  priced-AreKnown :
      (start : F) (orders : Orders) (k : Desk D F) {price : F}
      → (price_from float start orders k).0 ≡ ok price
      → AreKnown k.config orders
  unfolding price_from
  priced-AreKnown start [] k e = tt
  priced-AreKnown start (o ∷ orders) k e = elim (Option-cases (get_conso o.0 k.config)) [
    | inl nothing ↦ cc (rw nothing at e)
    | inr (d, known) ↦ (
      (d, known),
      priced-AreKnown (float.add start (float.times d.1 o.1)) orders k (rw known at e),
    )
  ]

  send_orders_lem :
      (orders : Orders) (k : Desk D F)
      → AreKnown k.config orders
      → ((send_orders float orders k).0 ≡ ok tt)
        × ((send_orders float orders k).1.requests ≡ receipts float k.config orders k.requests)
        × ((send_orders float orders k).1.card ≡ k.card)
        × ((send_orders float orders k).1.env.device ≡ k.env.device)
  unfolding send_orders send_history
  send_orders_lem [] k known = (refl, refl, refl, refl)
  send_orders_lem (o ∷ orders) k ((d, is), known) = rw is (send_orders_lem orders _ known)

-- The credit is enough for the price, and is not zero.
pub record Pays {F : Type 0} (float : FloatUnit F) (credit price : F) : Type 0 where
  pub enough : float.at_least credit price ≡ true
  pub left : float.is_zero credit ≡ false

-- What the state `k'` is once `orders` have been paid from state `k` on: the blocks `paid` are in memory
-- and have been stored on the tag, which holds the credit that is left, and the database has its lines.
pub record IsPaid {D F : Type 0} (content : D → ℕ → List ℕ) (key uid : List ℕ) (float : FloatUnit F)
    (tag : ℕ → List ℕ) (blocks : List (List Block)) (paid : List Block) (credit : F)
    (orders : Orders) (k k' : Desk D F) : Type 0 where
  pub credit_left : float.of_memory (take 4 (content k'.env.device 5)) ≡ credit
  pub stands : CardStands content key uid (pushed 4 paid tag) (set blocks 1 paid) k'
  pub requests : k'.requests ≡ receipts float k.config orders k.requests

module _ {D F : Type 0} {nfc : Libnfc D} {content : D → ℕ → List ℕ} {opened : D → ℕ → Bool}
    {key uid : List ℕ} (reader : IsMifare nfc content opened key uid) (float : FloatUnit F)
    (unit : IsFloatUnit float) {tag : ℕ → List ℕ} (blocks : List (List Block)) (b0 b1 b2 b3 : Block)
    (here : get_elem? blocks 1 ≡ some (b0 ∷ b1 ∷ b2 ∷ b3 ∷ []))
    (trailer : b3.state ≢ State.modified) (whole : IsBlock b1)
    (named : c_string (memory b0) ≡ codes "DEBIT") {price : F}
    (pays : Pays float (credit_in float b1) price) where
  settle-IsPaid :
      (orders : Orders) (k : Desk D F)
      → CardStands content key uid tag blocks k
      → AreKnown k.config orders
      → ((settle nfc float true price orders k).0 ≡ ok tt)
        × IsPaid content key uid float tag blocks
            (with_credit (float.to_memory (float.subtract (credit_in float b1) price)) b0 b1 b2 b3)
            (float.subtract (credit_in float b1) price)
            orders
            k
            (settle nfc float true price orders k).1
  unfolding settle set_command
  settle-IsPaid orders k (c, holds, v) known =
      let k1 = (show_info (codes "OK") k).1 in
      let k2 = (set_command (codes "DEBUCQUAGE OK") 3 1 k1).1 in
      let v2 : CardStands content key uid tag blocks k2 =
        (c, holds, record { card = v.card; memory = v.memory; on_tag = v.on_tag }) in
      let (on_tag, (c', holds', v')) =
        decrement_credit_on_tag reader float unit price k2 blocks b0 b1 b2 b3 here trailer whole v2
          named pays.left in
      let returns =
        decrement_credit_returns reader float unit price k2 blocks b0 b1 b2 b3 here trailer whole v2
          named pays.left in
      let k3 = (decrement_credit nfc float price k2).1 in
      let aside = paid_aside k2 v2 in
      let known' = subst (λ c. AreKnown c orders) (sym aside.config) known in
      let (done, lines, card, device) = send_orders_lem float orders k3 known' in
      rw returns (
        done,
        record {
          credit_left = ap (λ d. float.of_memory (take 4 (content d 5))) device ∙ on_tag;
          stands = (
            c',
            card ∙ holds',
            record {
              card = v'.card;
              memory = v'.memory;
              on_tag = λ n. ap (λ d. content d n) device ∙ v'.on_tag n;
            },
          );
          requests =
              lines
              ∙ ap (λ c. receipts float c orders k3.requests) aside.config
              ∙ ap (receipts float k.config orders) aside.requests;
        },
      )
    where
      paid_aside :
          (k : Desk D F)
          → CardStands content key uid tag blocks k
          → Aside k (decrement_credit nfc float price k).1
      paid_aside k v =
          let holds = CardStands-Holds k blocks here v in
          let reads = get_credit_lem float k b0 b1 (b2 ∷ b3 ∷ []) holds named in
          unfold decrement_credit in
          rw (reads, pays.left)
            (store_credit-Aside nfc float (float.subtract (credit_in float b1) price) k)

  pay_credit-IsPaid :
      (b : BarRun D F)
      → CardStands content key uid tag blocks b.desk
      → get_price float b.conso b.desk ≡ (ok price, b.desk)
      → ((pay_credit nfc float b).0 ≡ ok tt)
        × IsPaid content key uid float tag blocks
            (with_credit (float.to_memory (float.subtract (credit_in float b1) price)) b0 b1 b2 b3)
            (float.subtract (credit_in float b1) price)
            b.conso
            b.desk
            (pay_credit nfc float b).1.desk
  unfolding pay_credit get_price
  pay_credit-IsPaid b v priced =
      let holds = CardStands-Holds b.desk blocks here v in
      let reads = get_credit_lem float b.desk b0 b1 (b2 ∷ b3 ∷ []) holds named in
      let known =
        priced-AreKnown float float.zero_float b.conso b.desk
          (ap (λ (r : Result F × Desk D F). r.0) priced) in
      rw (reads, priced, pays.enough) (settle-IsPaid b.conso b.desk v known)

  -- A DEBIT card that stands beside its tag, without a ticket or with one for a drink that is not
  -- ordered: the orders are paid, and there are none left.
  pub pay-IsPaid :
      (timer : ℕ) (b : BarRun D F) {n t : ℕ}
      → CardStands content key uid tag blocks b.desk
      → get_elem? b2.data_bytes 0 ≡ some n
      → get_elem? b2.data_bytes 1 ≡ some t
      → (n ≡ 0) ⊎ (counts t b.conso ≡ false)
      → get_price float b.conso b.desk ≡ (ok price, b.desk)
      → ((pay nfc float timer b).0 ≡ ok tt)
        × ((pay nfc float timer b).1.conso ≡ [])
        × IsPaid content key uid float tag blocks
            (with_credit (float.to_memory (float.subtract (credit_in float b1) price)) b0 b1 b2 b3)
            (float.subtract (credit_in float b1) price)
            b.conso
            b.desk
            (pay nfc float timer b).1.desk
  unfolding pay set_command
  pay-IsPaid timer b v first second unpaid priced =
      let holds = CardStands-Holds b.desk blocks here v in
      let (done, p) = pay_credit-IsPaid b v priced in
      let (c, there, w) = p.stands in
      let unused = ticket_unused nfc float b0 b1 b2 (b3 ∷ []) named b holds first second unpaid in
      rw (unused, done)
        (
          refl,
          refl,
          record {
            credit_left = p.credit_left;
            stands = (c, there, record { card = w.card; memory = w.memory; on_tag = w.on_tag });
            requests = p.requests;
          },
        )
