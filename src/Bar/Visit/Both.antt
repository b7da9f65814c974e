-- ===== src/Bar/Visit/Both.antt =====
-- Two rounds of the loop of `Bar::run` (src/bar.cpp): a CONSO card orders a drink, and then a DEBIT
-- card, which is laid on the reader in its place, pays.
use programme_bee_gadz.Common.{
  ℕ, ◌≡◌, ◌≢◌, ◌⊎◌, refl, sym, ap, ◌∙◌, Bool, true, false, some, List, [], ◌∷◌, ok, codes, length,
  set, take, get_elem?, inl, inr, ℤ, is_positive, ◌==◌, Bool-cases,
}
use mathlib.Core.Path.{subst}
use programme_bee_gadz.Block.{memory}
use programme_bee_gadz.Mifare.{Libnfc, Target}
use programme_bee_gadz.Card.Tag.{IsMifare}
use programme_bee_gadz.Card.Tag.Fetching.{clean_block}
use programme_bee_gadz.Card.Tag.Reading.{sector_of}
use programme_bee_gadz.Card.Tag.Fresh.{IsFound, unread_blocks}
use programme_bee_gadz.Mode.{c_string}
use programme_bee_gadz.Mode.Members.{FloatUnit, IsFloatUnit, World, Desk}
use programme_bee_gadz.Mode.OnTag.{CardStands, CardStands-Holds}
use programme_bee_gadz.Mode.Laid.{IsFree}
use programme_bee_gadz.Mode.Reader.{Next}
use programme_bee_gadz.Bar.{Orders, counts, one_more, add_one, is_empty, BarRun, get_price}
use programme_bee_gadz.Bar.Round.{bar_round}
use programme_bee_gadz.Bar.Visit.{IsLaid}
use programme_bee_gadz.Bar.Visit.Paying.{Pays, receipts}
use programme_bee_gadz.Bar.Visit.Taking.{Calm}
use programme_bee_gadz.Bar.Visit.Paid.{get_price_same, orders_are_paid}
use programme_bee_gadz.Bar.Visit.Ordered.{drink_is_ordered}

-- Another tag comes before the reader.
abbrev pub with_device : {D F : Type 0} → D → BarRun D F → BarRun D F
with_device d b = record b { desk = record b.desk { env = record b.desk.env { device = d } } }

one_more-is_empty :
    (n : ℕ) (orders : Orders) → counts n orders ≡ true → is_empty (one_more n orders) ≡ false
one_more-is_empty n [] there = cc
one_more-is_empty n (o ∷ orders) there = elim (Bool-cases (o.0 == n)) [
  | inl e ↦ rw e refl
  | inr e ↦ rw e refl
]

add_one-is_empty : (n : ℕ) (orders : Orders) → is_empty (add_one n orders) ≡ false
add_one-is_empty n orders = elim (Bool-cases (counts n orders)) [
  | inl there ↦ rw there (one_more-is_empty n orders there)
  | inr new ↦ rw new refl
]

-- A search for the tag `uid` does not find it, and changes nothing on the tag that is there.
abbrev pub Misses : {D : Type 0} → Libnfc D → (D → ℕ → List ℕ) → List ℕ → Type 0
Misses {D} nfc content uid =
    (d : D)
    → (r : ℤ) × (t : Target) × (d' : D) × (nfc.select_passive_target uid d ≡ (r, t, d'))
      × (is_positive r ≡ false)
      × ((n : ℕ) → content d' n ≡ content d n)

module _ {D F : Type 0} {nfc : Libnfc D} {content content' : D → ℕ → List ℕ} {key uid : List ℕ}
    {tag : ℕ → List ℕ} where
  -- A CONSO card that has been read and is taken away leaves the way free.
  taken_away :
      (k : Desk D F) (d : D)
      → CardStands content key uid tag (set unread_blocks 1 (sector_of tag 1)) k
      → c_string (memory (clean_block (tag 4))) ≡ codes "CONSO"
      → Misses nfc content' uid
      → IsFree nfc content' (record k { env = record k.env { device = d } })
  taken_away k d v named misses =
      let (c, there, s) = v in
      inr (
        c,
        clean_block (tag 4),
        clean_block (tag 5) ∷ clean_block (tag 6) ∷ clean_block (tag 7) ∷ [],
        record {
          held = there;
          blocks = CardStands-Holds k (set unread_blocks 1 (sector_of tag 1)) refl v;
          named = named;
          gone = subst (Misses nfc content') (sym s.card.uid_is) misses;
        },
      )

-- A CONSO card for drink `n` is laid on the reader `first`; then the tag of a DEBIT card, whose ticket,
-- if it has one, is for a drink that is not ordered, comes in its place before the reader (`second`),
-- no key is pressed and the orders are not too old in either round. The configuration gives the orders
-- with the drink a price, and the credit of the DEBIT card is at least that and not zero. After the two
-- rounds of the loop of `Bar::run` the DEBIT card's tag has the credit less the price and is the same
-- in every other block, there are no orders, and the database has one line for each kind of drink.
pub ordered_and_paid :
    {D F : Type 0} {first second : Libnfc D} {content content' : D → ℕ → List ℕ}
    {opened opened' : D → ℕ → Bool} {key : List ℕ} {conso debit : Target}
    (found : IsFound first content conso)
    (reader : IsMifare first content opened key (take 4 conso.uid))
    (found' : IsFound second content' debit)
    (reader' : IsMifare second content' opened' key (take 4 debit.uid))
    → Misses second content' (take 4 conso.uid)
    → (float : FloatUnit F) → IsFloatUnit float
    → (world world' : World F) (b : BarRun D F) (d : D) {n u t : ℕ} {price : F}
    → IsLaid first content key conso world b
    → c_string (memory (clean_block (content b.desk.env.device 4))) ≡ codes "CONSO"
    → get_elem? (content b.desk.env.device 5) 0 ≡ some n
    → debit.atqa_low ≡ 4
    → length (take 4 debit.uid) ≡ 4
    → length world'.raw ≡ 16
    → Calm world' (with_device d (bar_round first float world b).1)
    → c_string (memory (clean_block (content' d 4))) ≡ codes "DEBIT"
    → get_elem? (content' d 6) 0 ≡ some u
    → get_elem? (content' d 6) 1 ≡ some t
    → (u ≡ 0) ⊎ (counts t (add_one n b.conso) ≡ false)
    → get_price float (add_one n b.conso) b.desk ≡ (ok price, b.desk)
    → Pays float (float.of_memory (take 4 (content' d 5))) price
    → (b' : BarRun D F) × (bar_round second float world'
          (with_device d (bar_round first float world b).1)
        ≡ (ok Next.again, b'))
      × (b'.conso ≡ [])
      × (float.of_memory (take 4 (content' b'.desk.env.device 5))
          ≡ float.subtract (float.of_memory (take 4 (content' d 5))) price)
      × ((m : ℕ) → m ≢ 5 → content' b'.desk.env.device m ≡ content' d m)
      × (b'.desk.requests ≡ receipts float b.desk.config (add_one n b.conso) b.desk.requests)
ordered_and_paid {first = first} {second = second} {content' = content'} {key = key} {debit = debit}
      found reader found' reader' misses float unit world world' b d {n} {u} {t} laid named byte
      known four raw calm named' none_left other unpaid priced pays =
    let (done, conso, v, config, requests) =
      drink_is_ordered found reader float world b laid named byte in
    let b1 = (bar_round first float world b).1 in
    let b2 = with_device d b1 in
    let laid' : IsLaid second content' key debit world' b2 = record {
      known = known;
      four = four;
      raw = raw;
      free = taken_away b1.desk d v named misses;
      keys = ap (λ c. c.key) config ∙ laid.keys;
      six = laid.six;
      calm = calm;
    } in
    let unpaid' = subst (λ o. (u ≡ 0) ⊎ (counts t o ≡ false)) (sym conso) unpaid in
    let some_there = ap is_empty conso ∙ add_one-is_empty n b.conso in
    let priced' =
      ap (λ o. get_price float o b2.desk) conso
      ∙ get_price_same float b.desk b2.desk config (add_one n b.conso) priced in
    let (again, empty, credit, kept, lines) =
      orders_are_paid found' reader' float unit world' b2 laid' named' none_left other unpaid'
        some_there priced' pays in
    (
      (bar_round second float world' b2).1,
      ap (λ r. (r, (bar_round second float world' b2).1)) again,
      empty,
      credit,
      kept,
      lines
          ∙ ap (λ o. receipts float b1.desk.config o b1.desk.requests) conso
          ∙ ap (λ c. receipts float c (add_one n b.conso) b1.desk.requests) config
          ∙ ap (receipts float b.desk.config (add_one n b.conso)) requests,
    )
