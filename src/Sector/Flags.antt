-- ===== src/Sector/Flags.antt =====
-- `enum Sector::Flag` and the two tables of access conditions (include/sector.h, src/sector.cpp).
-- A name says the key, then what it may do: `a_write_b` is `A_W_B`, key A may write key B.
use programme_bee_gadz.Common.{ℕ, ◌^◌, List, [], ◌∷◌}
use Prim.Native.Nat.{bit_or}

-- Bits of a trailer block.
abbrev pub a_write_a : ℕ
a_write_a = 2 ^ 9

abbrev pub b_write_a : ℕ
b_write_a = 2 ^ 8

abbrev pub a_read_c : ℕ
a_read_c = 2 ^ 7

abbrev pub b_read_c : ℕ
b_read_c = 2 ^ 6

abbrev pub a_write_c : ℕ
a_write_c = 2 ^ 5

abbrev pub b_write_c : ℕ
b_write_c = 2 ^ 4

abbrev pub a_read_b : ℕ
a_read_b = 2 ^ 3

abbrev pub a_write_b : ℕ
a_write_b = 2 ^ 1

abbrev pub b_write_b : ℕ
b_write_b = 2 ^ 0

-- Bits of any other block.
abbrev pub a_read : ℕ
a_read = 2 ^ 7

abbrev pub b_read : ℕ
b_read = 2 ^ 6

abbrev pub a_write : ℕ
a_write = 2 ^ 5

abbrev pub b_write : ℕ
b_write = 2 ^ 4

abbrev pub a_increment : ℕ
a_increment = 2 ^ 3

abbrev pub b_increment : ℕ
b_increment = 2 ^ 2

abbrev pub a_decrement : ℕ
a_decrement = 2 ^ 1

abbrev pub b_decrement : ℕ
b_decrement = 2 ^ 0

-- `x | y | …`
abbrev pub any_of : List ℕ → ℕ
any_of [] = 0
any_of (x ∷ xs) = bit_or x (any_of xs)

-- `Sector::m_accessTrailer`
abbrev pub access_trailer : List ℕ
access_trailer =
    any_of (a_write_a ∷ a_read_c ∷ a_read_b ∷ a_write_b ∷ [])
    ∷ any_of (a_write_a ∷ a_read_c ∷ a_write_c ∷ a_read_b ∷ a_write_b ∷ [])
    ∷ any_of (a_read_c ∷ a_read_b ∷ [])
    ∷ any_of (b_write_a ∷ a_read_c ∷ b_read_c ∷ b_write_c ∷ b_write_b ∷ [])
    ∷ any_of (b_write_a ∷ a_read_c ∷ b_read_c ∷ b_write_b ∷ [])
    ∷ any_of (a_read_c ∷ b_read_c ∷ b_write_c ∷ [])
    ∷ any_of (a_read_c ∷ b_read_c ∷ [])
    ∷ any_of (a_read_c ∷ b_read_c ∷ [])
    ∷ []

-- `Sector::m_accessBlock`
abbrev pub access_block : List ℕ
access_block =
    any_of (
      a_read ∷ b_read ∷ a_write ∷ b_write ∷ a_increment ∷ b_increment ∷ a_decrement ∷ b_decrement
      ∷ [])
    ∷ any_of (a_read ∷ b_read ∷ a_decrement ∷ b_decrement ∷ [])
    ∷ any_of (a_read ∷ b_read ∷ [])
    ∷ any_of (b_read ∷ b_write ∷ [])
    ∷ any_of (a_read ∷ b_read ∷ b_write ∷ [])
    ∷ any_of (b_read ∷ [])
    ∷ any_of (a_read ∷ b_read ∷ b_write ∷ b_increment ∷ a_decrement ∷ b_decrement ∷ [])
    ∷ 0
    ∷ []
