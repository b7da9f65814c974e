-- ===== src/Common/Bitset.antt =====
-- `std::bitset<w>`: the list of its bits, the lowest first.
use Prim.Native.Nat.{ℕ, zero, suc, ◌+◌, ◌*◌, ◌/◌, ◌%◌, ◌^◌, ◌<◌}
use mathlib.Core.Path.{◌≡◌, refl, ap, ap₂, ◌∙◌}
use mathlib.Core.Bool.{Bool, true, false}
use mathlib.Core.List.{List, [], ◌∷◌}
use native.Mathlib.Omega.{arith}
use native.Mathlib.Nat.{pow-suc}
use programme_bee_gadz.Common.Tests.{◌==◌}
use programme_bee_gadz.Common.Lists.{length}

-- `std::bitset<w> bits(n)`
unfoldable pub to_bits : ℕ → ℕ → List Bool
to_bits zero n = []
to_bits (suc w) n = (n % 2 == 1) ∷ to_bits w (n / 2)

abbrev pub bit : Bool → ℕ
bit true = 1
bit false = 0

-- `bits.to_ulong()`
unfoldable pub of_bits : List Bool → ℕ
of_bits [] = 0
of_bits (b ∷ bs) = bit b + 2 * of_bits bs

pub length-to_bits : (w n : ℕ) → length (to_bits w n) ≡ w
unfolding to_bits
length-to_bits zero n = refl
length-to_bits (suc w) n = ap suc (length-to_bits w (n / 2))

low_bit : (b : Bool) (r : ℕ) → ((bit b + 2 * r) % 2 == 1) ≡ b
low_bit true r = ground arith
low_bit false r = ground arith

high_bits : (b : Bool) (r : ℕ) → (bit b + 2 * r) / 2 ≡ r
high_bits true r = omega arith
high_bits false r = omega arith

-- Storing a bit set and loading it again loses no bit.
pub to_bits-of_bits : (bs : List Bool) → to_bits (length bs) (of_bits bs) ≡ bs
unfolding to_bits of_bits
to_bits-of_bits [] = refl
to_bits-of_bits (b ∷ bs) =
    ap₂ ◌∷◌ (low_bit b (of_bits bs))
      (ap (to_bits (length bs)) (high_bits b (of_bits bs)) ∙ to_bits-of_bits bs)

pub of_bits-lt : (bs : List Bool) → of_bits bs < 2 ^ length bs
unfolding of_bits
of_bits-lt [] = omega arith
of_bits-lt (true ∷ bs) = omega (arith, of_bits-lt bs, pow-suc 2 (length bs))
of_bits-lt (false ∷ bs) = omega (arith, of_bits-lt bs, pow-suc 2 (length bs))
