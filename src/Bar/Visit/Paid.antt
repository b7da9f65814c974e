-- ===== src/Bar/Visit/Paid.antt =====
-- A round of the loop of `Bar::run` (src/bar.cpp) in which a DEBIT card is laid on the reader.
use programme_bee_gadz.Common.{
  ℕ, ◌≡◌, ◌≢◌, ◌⊎◌, refl, sym, ap, ◌∙◌, Bool, false, some, List, [], ◌∷◌, Result, ok, Option-cases,
  inl, inr, ==_ne, handle, pure, codes, set, take, get_elem?,
}
use mathlib.Core.Path.{subst}
use programme_bee_gadz.Block.{memory}
use programme_bee_gadz.Mifare.{Libnfc, Target}
use programme_bee_gadz.Card.Tag.{IsMifare}
use programme_bee_gadz.Card.Tag.Fetching.{clean_block}
use programme_bee_gadz.Card.Tag.Reading.{sector_of}
use programme_bee_gadz.Card.Tag.Fresh.{IsFound, unread_blocks}
use programme_bee_gadz.Mode.{c_string}
use programme_bee_gadz.Mode.Members.{FloatUnit, IsFloatUnit, World, Desk}
use programme_bee_gadz.Mode.Reader.{Next}
use programme_bee_gadz.Mode.Memory.{Holds}
use programme_bee_gadz.Mode.Laid.{ended, credit-IsBlock}
use programme_bee_gadz.Mode.OnTag.{CardStands-Holds}
use programme_bee_gadz.Bar.{Orders, counts, is_empty, BarRun, price_from, get_price, pay}
use programme_bee_gadz.Config.{get_conso}
use programme_bee_gadz.Bar.Round.{bar_round}
use programme_bee_gadz.Bar.Visit.Paying.{Pays, receipts, pay-IsPaid}
use programme_bee_gadz.Bar.Visit.Taking.{round_laid}
use programme_bee_gadz.Bar.Visit.{IsLaid, serve_debit}

module _ {D F : Type 0} (float : FloatUnit F) (k k' : Desk D F) (same : k'.config ≡ k.config) where
  price_from_same :
      (start : F) (orders : Orders) {price : F}
      → price_from float start orders k ≡ (ok price, k)
      → price_from float start orders k' ≡ (ok price, k')
  unfolding price_from
  price_from_same start [] e = ap (λ (r : Result F × Desk D F). (r.0, k')) e
  price_from_same start (o ∷ orders) {price} e = elim (Option-cases (get_conso o.0 k.config)) [
    | inl nothing ↦ cc (rw nothing at (ap (λ (r : Result F × Desk D F). r.0) e))
    | inr (d, known) ↦
        let known' : get_conso o.0 k'.config ≡ some d = ap (get_conso o.0) same ∙ known in
        rw known' (price_from_same (float.add start (float.times d.1 o.1)) orders (rw known at e))
  ]

  -- The price depends on the configuration only.
  pub get_price_same :
      (orders : Orders) {price : F}
      → get_price float orders k ≡ (ok price, k)
      → get_price float orders k' ≡ (ok price, k')
  unfolding get_price
  get_price_same orders e = price_from_same float.zero_float orders e

-- A DEBIT card is laid on the reader, without a ticket or with one for a drink that is not ordered,
-- while there are orders that the configuration gives a price, no key is pressed and the orders are
-- not too old; its credit is at least the price and not zero. After that round of the loop of
-- `Bar::run` the card's tag has the credit less the price and is the same in every other block, there
-- are no orders, and the database has one line for each kind of drink.
pub orders_are_paid :
    {D F : Type 0} {nfc : Libnfc D} {content : D → ℕ → List ℕ} {opened : D → ℕ → Bool}
    {key : List ℕ} {target : Target} (found : IsFound nfc content target)
    (reader : IsMifare nfc content opened key (take 4 target.uid)) (float : FloatUnit F)
    → IsFloatUnit float
    → (world : World F) (b : BarRun D F) {n t : ℕ} {price : F}
    → IsLaid nfc content key target world b
    → c_string (memory (clean_block (content b.desk.env.device 4))) ≡ codes "DEBIT"
    → get_elem? (content b.desk.env.device 6) 0 ≡ some n
    → get_elem? (content b.desk.env.device 6) 1 ≡ some t
    → (n ≡ 0) ⊎ (counts t b.conso ≡ false)
    → is_empty b.conso ≡ false
    → get_price float b.conso b.desk ≡ (ok price, b.desk)
    → Pays float (float.of_memory (take 4 (content b.desk.env.device 5))) price
    → ((bar_round nfc float world b).0 ≡ ok Next.again)
      × ((bar_round nfc float world b).1.conso ≡ [])
      × (float.of_memory (take 4 (content (bar_round nfc float world b).1.desk.env.device 5))
          ≡ float.subtract (float.of_memory (take 4 (content b.desk.env.device 5))) price)
      × ((m : ℕ)
          → m ≢ 5
          → content (bar_round nfc float world b).1.desk.env.device m ≡ content b.desk.env.device m)
      × ((bar_round nfc float world b).1.desk.requests
          ≡ receipts float b.desk.config b.conso b.desk.requests)
orders_are_paid {nfc = nfc} {content = content} found reader float unit world b {n} {t} {price} laid
      named first second unpaid some_there priced pays =
    let tag = content b.desk.env.device in
    let blocks = set unread_blocks 1 (sector_of tag 1) in
    let b0 = clean_block (tag 4) in
    let b1 = clean_block (tag 5) in
    let b2 = clean_block (tag 6) in
    let b3 = clean_block (tag 7) in
    let (b', timer, served, v, w) =
      round_laid found laid.known laid.four reader float world laid.raw b laid.free laid.keys
        laid.six laid.calm in
    let unpaid' = subst (λ o. (n ≡ 0) ⊎ (counts t o ≡ false)) (sym w.conso) unpaid in
    let priced' =
      ap (λ o. get_price float o b'.desk) w.conso
      ∙ get_price_same float b.desk b'.desk w.config b.conso priced in
    let (returns, no_orders, p) =
      pay-IsPaid reader float unit blocks b0 b1 b2 b3 refl (λ e. cc) (credit-IsBlock b'.desk v)
        named pays timer b' v first second unpaid' priced' in
    let holds : Holds b'.desk (b0 ∷ b1 ∷ b2 ∷ b3 ∷ []) = CardStands-Holds b'.desk blocks refl v in
    let some_there' = ap is_empty w.conso ∙ some_there in
    let runs =
      served
      ∙ ap (handle (pure Next.again))
          (serve_debit nfc float world timer b' b0 (b1 ∷ b2 ∷ b3 ∷ []) holds named some_there')
      ∙ ended (pay nfc float timer b') (inl returns) in
    let (c, there, s) = p.stands in
    rw runs (
      refl,
      no_orders,
      p.credit_left,
      λ m other. s.on_tag m ∙ rw (==_ne m 5 other) refl,
      p.requests
          ∙ ap (λ o. receipts float b'.desk.config o b'.desk.requests) w.conso
          ∙ ap (λ c. receipts float c b.conso b'.desk.requests) w.config
          ∙ ap (receipts float b.desk.config b.conso) w.requests,
    )
