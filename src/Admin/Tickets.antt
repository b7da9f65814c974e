-- ===== src/Admin/Tickets.antt =====
-- The ticket of the configuration (src/config_driver.cpp) as the menu of cards puts it on a card
-- (src/admin.cpp): a number that is written as text and read again.
use programme_bee_gadz.Common.{
  ℕ, zero, suc, ◌+◌, ◌-◌, ◌*◌, ◌/◌, ◌%◌, ◌^◌, ◌≤◌, ◌<◌, ◌==◌, ◌≡◌, inl, inr, refl, sym, ap, ◌∙◌,
  false, some, List, [], ◌∷◌, arith, ltb, leb_lt, lt→ltb, Bool-cases, same_text, get_elem?, length,
  lt_of_get_elem?,
}
use programme_bee_gadz.Printer.Numerals.{digit, digits_before, decimal_of}
use programme_bee_gadz.Config.{
  Document, Config, ConfigMode, find_conso, ticket_text, new_config, get_conso,
}
use programme_bee_gadz.Mode.Kinds.{same_text_eq}
use programme_bee_gadz.Admin.{read_digits, ticket_id}

digit_lem : (d : ℕ) → d < 10 → digit d ≡ 48 + d
digit_lem d h = rw (lt→ltb d 10 h) refl

abbrev ten_to : ℕ → ℕ
ten_to zero = 1
ten_to (suc k) = 10 * ten_to k

read_digits-digits_before :
    (fuel n : ℕ) (rest : List ℕ)
    → n < ten_to fuel
    → 0 < fuel
    → read_digits 0 (digits_before fuel 10 n rest) ≡ read_digits n rest
read_digits-digits_before zero n rest h pos = absurd (omega arith)
read_digits-digits_before (suc fuel) n rest h pos = elim (Bool-cases (ltb n 10)) [
  | inl small ↦
      let same : 0 + (48 + n - 48) ≡ n = omega arith in rw small (ap (λ m. read_digits m rest) same)
  | inr large ↦
      let more : 10 ≤ n = ground arith in
      let last = digit_lem (n % 10) (omega arith) in
      let same : n / 10 * 10 + (digit (n % 10) - 48) ≡ n = omega (arith, last) in
      rw large (
        read_digits-digits_before fuel (n / 10) (digit (n % 10) ∷ rest) (omega arith)
          (fuel_left fuel n more h)
        ∙ ap (λ m. read_digits m rest) same)
]
  where
    fuel_left : (f n : ℕ) → 10 ≤ n → n < 10 * ten_to f → 0 < f
    fuel_left zero n more h = absurd (omega arith)
    fuel_left (suc f) n more h = omega arith

-- The first character is a digit.
HeadIsDigit : List ℕ → Type 0
HeadIsDigit text = (d : ℕ) × (rest : List ℕ) × (text ≡ d ∷ rest) × (48 ≤ d)

head_digit :
    (fuel n d : ℕ) (rest : List ℕ) → 48 ≤ d → HeadIsDigit (digits_before fuel 10 n (d ∷ rest))
unfolding HeadIsDigit
head_digit zero n d rest h = (d, rest, refl, h)
head_digit (suc fuel) n d rest h = elim (Bool-cases (ltb n 10)) [
  | inl small ↦ rw small (48 + n, d ∷ rest, refl, omega arith)
  | inr large ↦ rw large (
      head_digit fuel (n / 10) (digit (n % 10)) (d ∷ rest)
        (omega (arith, digit_lem (n % 10) (omega arith))))
]

decimal_head : (n : ℕ) → HeadIsDigit (decimal_of n)
unfolding decimal_of HeadIsDigit
decimal_head n = elim (Bool-cases (ltb n 10)) [
  | inl small ↦ rw small (48 + n, [], refl, omega arith)
  | inr large ↦
      rw large (
        head_digit 19 (n / 10) (digit (n % 10)) []
          (omega (arith, digit_lem (n % 10) (omega arith))))
]

ticket_id-decimal_of : (n : ℕ) → n < 256 → ticket_id (decimal_of n) ≡ n
unfolding HeadIsDigit
ticket_id-decimal_of n h =
    let (d, rest, e, high) = decimal_head n in
    let read : read_digits 0 (decimal_of n) ≡ n =
      unfold decimal_of in read_digits-digits_before 20 n [] (omega arith) (omega arith) in
    let whole : read_digits 0 (d ∷ rest) ≡ n = rw e at read in
    let no_dash : (d == b'-') ≡ false = ground arith in
    let fits : n % 2 ^ 8 ≡ n = omega arith in rw (e, no_dash, whole, fits) refl

find_conso_lem :
    {F : Type 0} (i : ℕ) (value : List ℕ) (consos : List (List ℕ × F)) {j : ℕ}
    → find_conso i value consos ≡ some j
    → (k : ℕ) × (price : F) × (j ≡ i + k) × (get_elem? consos k ≡ some (value, price))
find_conso_lem i value [] e = cc
find_conso_lem i value (c ∷ consos) {j} e = elim (Bool-cases (same_text c.0 value)) [
  | inl same ↦
      let here : i ≡ j = cc (rw same at e) in
      (0, c.1, omega arith, ap (λ name. some (name, c.1)) (same_text_eq c.0 value same))
  | inr other ↦
      let (k, price, at, found) = find_conso_lem (suc i) value consos (rw other at e) in
      (suc k, price, omega arith, found)
]

-- A configuration that was loaded, whose drinks have the name of the ticket, the first time as number
-- `i` below 256: the number that the menu of cards reads as the ticket is a drink of that name.
pub ticket_id_lem :
    {F : Type 0} (raw : ConfigMode) (d : Document F) (c : Config F) {i : ℕ}
    → new_config raw (some d) ≡ some c
    → find_conso 0 d.ticket d.consos ≡ some i
    → i < 256
    → (price : F) × (get_conso (ticket_id c.ticket) c ≡ some (d.ticket, price))
unfolding new_config get_conso
ticket_id_lem {F} raw d c {i} loaded found small =
    let (k, price, at, drink) = find_conso_lem 0 d.ticket d.consos found in
    let first : i ≡ k = omega arith in
    let consos : d.consos ≡ c.consos = cc loaded in
    let text : ticket_text (find_conso 0 d.ticket d.consos) ≡ c.ticket = cc loaded in
    let id : ticket_id c.ticket ≡ i =
      ap ticket_id (sym text ∙ ap ticket_text found) ∙ ticket_id-decimal_of i small in
    let here : get_elem? c.consos i ≡ some (d.ticket, price) =
      ap (λ consos. get_elem? consos i) (sym consos) ∙ ap (get_elem? d.consos) first ∙ drink in
    (price, rw (id, leb_lt (length c.consos) i (lt_of_get_elem? c.consos i here)) here)
