-- ===== src/Printer/Text.antt =====
-- The text of bytes in hexadecimal, `Printer::arrayToString` (include/print_driver.h), against its two
-- digits for each byte.
use programme_bee_gadz.Common.{
  ℕ, ◌*◌, ◌/◌, ◌%◌, ◌<◌, ◌≡◌, refl, ap, ◌∙◌, List, [], ◌∷◌, arith, length, lt→ltb, ltb_le,
}
use native.Mathlib.Decide.{dec_lt}
use programme_bee_gadz.Printer.{array_to_string}
use programme_bee_gadz.Printer.Numerals.{digit, hex_of, hex_pair}

-- The bytes as text: two digits and a space for each
abbrev pub hex_text : List ℕ → List ℕ
hex_text [] = []
hex_text (b ∷ bs) = digit (b / 16) ∷ digit (b % 16) ∷ b' ' ∷ hex_text bs

abbrev pub AreBytes : List ℕ → Type 0
AreBytes [] = Unit
AreBytes (b ∷ bs) = (b < 256) × AreBytes bs

hex_pair_lem : (b : ℕ) → b < 256 → hex_pair b ≡ digit (b / 16) ∷ digit (b % 16) ∷ []
unfolding hex_pair hex_of
hex_pair_lem b h = elim (dec_lt b 16) [
  | yes low ↦
      let high : b / 16 ≡ 0 = omega arith in
      let rest : b % 16 ≡ b = omega arith in rw (lt→ltb b 16 low, high, rest) refl
  | no not_low ↦
      let high : b / 16 < 16 = omega arith in
      rw (ltb_le b 16 (omega arith), lt→ltb (b / 16) 16 high) refl
]

length-hex_text : (bs : List ℕ) → length (hex_text bs) ≡ 3 * length bs
length-hex_text [] = refl
length-hex_text (b ∷ bs) = omega (arith, length-hex_text bs)

array_to_string-eq-hex_text : (bs : List ℕ) → AreBytes bs → array_to_string bs ≡ hex_text bs
unfolding array_to_string
array_to_string-eq-hex_text [] h = refl
array_to_string-eq-hex_text (b ∷ bs) h =
    rw (hex_pair_lem b h.0, array_to_string-eq-hex_text bs h.1) refl

-- Bytes as text are two hexadecimal digits and a space each, so three characters for each byte.
pub array_to_string_lem :
    (bs : List ℕ)
    → AreBytes bs
    → (array_to_string bs ≡ hex_text bs) × (length (array_to_string bs) ≡ 3 * length bs)
array_to_string_lem bs h =
    let same = array_to_string-eq-hex_text bs h in (same, ap length same ∙ length-hex_text bs)
