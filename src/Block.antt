-- ===== src/Block.antt =====
-- `class Block` (include/block.h, src/block.cpp): the 16 bytes of a card's block, as they stand in
-- memory, and whether they agree with the card.
use programme_bee_gadz.Common.{ℕ, Bool, true, false, ◌≡◌, Option, none, some, List, [], ◌∷◌, ◌++◌}
use programme_bee_gadz.Common.{length, get_elem?, set, take, replicate}

-- `enum State { CLEAN, DIRTY, MODIFIED, }`
pub data State : Type 0 where
  clean dirty modified : State

pub record Block : Type 0 where
  -- `m_data`
  pub data_bytes : List ℕ
  -- `m_state`
  pub state : State

-- `Block::Block(uint8_t *data)`; `none` is the null pointer.
abbrev pub new_block : Option (List ℕ) → Block
new_block none = record { data_bytes = replicate 16 0; state = State.dirty }
new_block (some src) = record { data_bytes = take 16 src; state = State.dirty }

-- `Block::Block(const Block &)` and `Block::operator=`, byte by byte
abbrev pub copy_block : Block → Block
copy_block other = record { data_bytes = take 16 other.data_bytes; state = other.state }

-- `Block::getState`
abbrev pub get_state : Block → State
get_state b = b.state

-- `block[i]` read; `none` is out of range.
abbrev pub get_byte : Block → ℕ → Option ℕ
get_byte b i = get_elem? b.data_bytes i

-- `block[i] = v`
abbrev pub set_byte : ℕ → ℕ → Block → Block
set_byte i v b = record b { data_bytes = set b.data_bytes i v }

-- `Block::setState`
abbrev pub set_state : State → Block → Block
set_state st b = record b { state = st }

-- `Block::size`
abbrev pub block_size : Block → ℕ
block_size b = length b.data_bytes

-- The object's memory from `data()` on: the bytes, then `m_state`, a little-endian 4-byte enum.
abbrev pub state_number : State → ℕ
state_number State.clean = 0
state_number State.dirty = 1
state_number State.modified = 2

abbrev pub memory : Block → List ℕ
memory b = b.data_bytes ++ (state_number b.state ∷ 0 ∷ 0 ∷ 0 ∷ [])

-- Neither `CLEAN` nor `DIRTY`: what the writing loop asks of a block.
abbrev pub is_modified : State → Bool
is_modified State.clean = false
is_modified State.dirty = false
is_modified State.modified = true

-- The array has its 16 places.
abbrev pub IsBlock : Block → Type 0
IsBlock b = length b.data_bytes ≡ 16
