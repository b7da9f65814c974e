-- ===== src/Bar/Amounts.antt =====
-- The orders of `Bar::run` (src/bar.cpp) as numbers of drinks: what `++conso[key]` and the decrement
-- with its `erase` do to each of them.
use programme_bee_gadz.Common.{
  ℕ, ◌+◌, ◌-◌, ◌%◌, ◌^◌, ◌<◌, ◌≡◌, inl, inr, refl, ◌∙◌, true, false, ◌==◌, [], ◌∷◌, arith,
  if◌then◌else◌, Bool-cases, ==_iff,
}
use programme_bee_gadz.Bar.{Orders, counts, one_more, add_one, take_one}

-- The number of drinks of a kind.
abbrev pub amount : ℕ → Orders → ℕ
amount i [] = 0
amount i (o ∷ orders) = let rest = amount i orders in if o.0 == i then o.1 else rest

-- Every kind stands once, with a number that is not zero and fits a `size_t`.
abbrev pub IsOrders : Orders → Type 0
IsOrders [] = Unit {0}
IsOrders (o ∷ orders) = (counts o.0 orders ≡ false) × (0 < o.1) × (o.1 < 2 ^ 64) × IsOrders orders

absent : (i : ℕ) (orders : Orders) → counts i orders ≡ false → amount i orders ≡ 0
absent i [] e = refl
absent i (o ∷ orders) e = elim (Bool-cases (o.0 == i)) [
  | inl same ↦ cc (rw same at e)
  | inr other ↦ rw other (absent i orders (rw other at e))
]

counts-one_more : (i key : ℕ) (orders : Orders) → counts i (one_more key orders) ≡ counts i orders
counts-one_more i key [] = refl
counts-one_more i key (o ∷ orders) = elim (Bool-cases (o.0 == key)) [
  | inl same ↦ rw (same, (==_iff o.0 key).0 same) refl
  | inr other ↦ rw (other, counts-one_more i key orders) refl
]

counts-take_one :
    (i key : ℕ) (orders : Orders) → counts i orders ≡ false → counts i (take_one key orders) ≡ false
counts-take_one i key [] e = refl
counts-take_one i key (o ∷ orders) e = elim (Bool-cases (o.0 == i)) [
  | inl same ↦ cc (rw same at e)
  | inr ne ↦ elim (Bool-cases (o.0 == key)) [
    | inl same ↦ elim (Bool-cases ((o.1 + 2 ^ 64 - 1) % 2 ^ 64 == 0)) [
      | inl last ↦ rw (same, last) (rw ne at e)
      | inr more ↦ rw (same, more, ← (==_iff o.0 key).0 same, ne) (rw ne at e)
    ]
    | inr other ↦ rw (other, ne) (counts-take_one i key orders (rw ne at e))
  ]
]

one_more_lem :
    (key : ℕ) (orders : Orders)
    → IsOrders orders
    → counts key orders ≡ true
    → amount key orders + 1 < 2 ^ 64
    → IsOrders (one_more key orders)
      × ((i : ℕ)
          → amount i (one_more key orders)
            ≡ (if i == key then amount i orders + 1 else amount i orders))
one_more_lem key [] v there h = cc
one_more_lem key (o ∷ orders) (once, some_there, fits, v) there h = elim (Bool-cases (o.0 == key)) [
  | inl same ↦
      let named : o.0 ≡ key = (==_iff o.0 key).0 same in
      let room : o.1 + 1 < 2 ^ 64 = rw same at h in
      let wraps : (o.1 + 1) % 2 ^ 64 ≡ o.1 + 1 = omega arith in
      rw (same, wraps) ((rw named at once, omega arith, room, v), λ i. ground arith)
  | inr other ↦
      let (later, numbers) = one_more_lem key orders v (rw other at there) (rw other at h) in
      let still_once = counts-one_more o.0 key orders ∙ once in
      rw other ((still_once, some_there, fits, later), λ i. let n = numbers i in ground arith)
]

-- Orders as a loop can have them, and fewer than 2 ^ 64 - 1 drinks of the kind: `++conso[key]` adds one
-- drink of that kind and none of another, and leaves no kind twice or with none.
pub add_one_lem :
    (key : ℕ) (orders : Orders)
    → IsOrders orders
    → amount key orders + 1 < 2 ^ 64
    → IsOrders (add_one key orders)
      × ((i : ℕ)
          → amount i (add_one key orders)
            ≡ (if i == key then amount i orders + 1 else amount i orders))
add_one_lem key orders v h = elim (Bool-cases (counts key orders)) [
  | inl there ↦ rw there (one_more_lem key orders v there h)
  | inr new ↦
      let none = absent key orders new in
      rw new (
        (new, omega arith, omega arith, v),
        λ i. elim (Bool-cases (i == key)) [
          | inl e ↦ let named : i ≡ key = (==_iff i key).0 e in rw named (ground arith)
          | inr e ↦ ground arith
        ],
      )
]

-- Orders as a loop can have them, with a drink of the kind: the decrement and the `erase` take one
-- drink of that kind and none of another, and leave no kind twice or with none.
pub take_one_lem :
    (key : ℕ) (orders : Orders)
    → IsOrders orders
    → counts key orders ≡ true
    → IsOrders (take_one key orders)
      × ((i : ℕ)
          → amount i (take_one key orders)
            ≡ (if i == key then amount i orders - 1 else amount i orders))
take_one_lem key [] v h = cc
take_one_lem key (o ∷ orders) (once, some_there, fits, v) h = elim (Bool-cases (o.0 == key)) [
  | inl same ↦
      let named : o.0 ≡ key = (==_iff o.0 key).0 same in
      let wraps : (o.1 + 2 ^ 64 - 1) % 2 ^ 64 ≡ o.1 - 1 = omega arith in
      elim (Bool-cases (o.1 - 1 == 0)) [
        | inl last ↦
            let none_more = absent key orders (rw named at once) in
            rw (same, wraps, last)
              (
                v,
                λ i. elim (Bool-cases (i == key)) [
                  | inl e ↦ let named_i : i ≡ key = (==_iff i key).0 e in rw named_i (ground arith)
                  | inr e ↦ ground arith
                ],
              )
        | inr more ↦
            rw (same, wraps, more)
              ((rw named at once, ground arith, omega arith, v), λ i. ground arith)
      ]
  | inr other ↦
      let (later, numbers) = take_one_lem key orders v (rw other at h) in
      rw other (
        (counts-take_one o.0 key orders once, some_there, fits, later),
        λ i. let n = numbers i in ground arith,
      )
]
