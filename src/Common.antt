-- ===== src/Common.antt =====
-- The names that every component shares: the libraries' names, passed on, Boolean tests on native
-- numbers, lists indexed by native numbers, bit sets, C's `int` results, and actions with state.
mod Tests
mod Lists
mod Loops
mod Bitset
mod Int
mod Xor
mod Effect
pub use Tests.*
pub use Lists.*
pub use Loops.*
unfoldable pub use Bitset.{to_bits, of_bits}
pub use Bitset.{length-to_bits, to_bits-of_bits, of_bits-lt}
pub use Xor.{bit_xor-zero}
pub use Int.*
pub use Effect.*
pub use Prim.Native.Nat.{ℕ, zero, suc, ◌+◌, ◌-◌, ◌*◌, ◌/◌, ◌%◌, ◌^◌, ◌≤◌, ◌<◌, bit_and, bit_xor}
pub use mathlib.Core.Path.{◌≡◌, refl, sym, ap, ◌∙◌}
pub use mathlib.Core.Logic.{◌≢◌, ◌↔◌, ◌⊎◌, inl, inr}
pub use mathlib.Core.Bool.{Bool, true, false, not, ◌&&◌, ◌||◌}
pub use mathlib.Core.Option.{Option, none, some}
pub use mathlib.Core.List.{List, [], ◌∷◌, ◌++◌, map}
pub use native.Mathlib.Omega.{arith}
