-- ===== src/Printer/Numerals.antt =====
-- Numbers as the text that a `std::ostream` writes (include/print_driver.h: `valueToString`,
-- `arrayToString`): decimal, or hexadecimal in small letters; a `size_t` has 20 digits at most.
use programme_bee_gadz.Common.{ℕ, zero, suc, ◌+◌, ◌-◌, ◌/◌, ◌%◌, List, [], ◌∷◌, ltb, if◌then◌else◌}

abbrev pub digit : ℕ → ℕ
digit d = if ltb d 10 then b'0' + d else b'a' + (d - 10)

-- The digits of `n`, most significant first, in front of `rest`; with the fuel spent, none.
abbrev pub digits_before : ℕ → ℕ → ℕ → List ℕ → List ℕ
digits_before zero base n rest = rest
digits_before (suc f) base n rest =
    let more = digits_before f base (n / base) (digit (n % base) ∷ rest) in
    if ltb n base then digit n ∷ rest else more

unfoldable pub hex_of : ℕ → List ℕ
hex_of n = digits_before 20 16 n []

unfoldable pub decimal_of : ℕ → List ℕ
decimal_of n = digits_before 20 10 n []

-- `std::setw(2)` with fill `0`
unfoldable pub hex_pair : ℕ → List ℕ
unfolding hex_of
hex_pair b = if ltb b 16 then b'0' ∷ hex_of b else hex_of b
