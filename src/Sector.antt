-- ===== src/Sector.antt =====
-- `class Sector` (include/sector.h, src/sector.cpp): the blocks of a sector, the last of which is its
-- trailer, and the key that opens it. `none` is an access outside the array of blocks or of bits.
pub mod Flags
pub mod Shape
pub mod Access
pub mod Permissions
pub mod Copies
pub mod Keys
use Flags.{b_increment, a_write_a, b_write_a, access_trailer, access_block}
use programme_bee_gadz.Common.{
  ℕ, zero, suc, ◌+◌, ◌-◌, ◌%◌, ◌^◌, ◌<◌, ◌≡◌, Bool, true, false, not, ◌&&◌, ◌||◌, Option, none,
  some, List, [], ◌∷◌, bit_and, bit_xor, ltb, leb, ◌==◌, if◌then◌else◌, length, get_elem?, get_or,
  set, replicate, for_below, to_bits, of_bits, or_none,
}
use programme_bee_gadz.Block.{Block, IsBlock, new_block, set_byte}

pub record Sector : Type 0 where
  -- `m_data`
  pub blocks : List Block
  -- `m_key`
  pub key : List ℕ
  -- `m_isTrailer`
  pub is_trailer : Bool
  -- `m_keyB`
  pub key_b : Bool

-- `Sector::Sector(bool, size_t, bool)`
abbrev pub new_sector : Bool → ℕ → Bool → Sector
new_sector is_trailer nb_block key_b = record {
  blocks = replicate nb_block (new_block none);
  key = replicate 6 0xff;
  is_trailer = is_trailer;
  key_b = key_b;
}

-- `Sector::Sector(const Sector &)`; `raw` is what the memory of `m_key` held.
unfoldable pub copy_sector : List ℕ → Sector → Sector
copy_sector raw other = record {
  blocks = other.blocks;
  key = for_below 6 (λ i k. set k i (get_or other.key i 0)) raw;
  is_trailer = other.is_trailer;
  key_b = other.key_b;
}

-- `Sector::operator=`: the flag for key B is not assigned.
unfoldable pub assign_sector : Sector → Sector → Sector
assign_sector this other = record this {
  is_trailer = other.is_trailer;
  blocks = other.blocks;
  key = for_below 6 (λ i k. set k i (get_or other.key i 0)) this.key;
}

-- `Sector::size`
abbrev pub size : Sector → ℕ
size s = length s.blocks

-- `size() - 1` in `size_t`
abbrev pub last_index : Sector → ℕ
last_index s = (size s + 2 ^ 64 - 1) % 2 ^ 64

-- There is a trailer, and every block has its 16 bytes.
pub record IsSector (s : Sector) : Type 0 where
  pub nonempty : 0 < size s
  pub fits : size s < 2 ^ 64
  pub whole : (i : ℕ) (b : Block) → get_elem? s.blocks i ≡ some b → IsBlock b
  pub key_length : length s.key ≡ 6

-- The trailer block, `m_data[size() - 1]`, and its bytes.
abbrev pub trailer : Sector → Option Block
trailer s = get_elem? s.blocks (last_index s)

abbrev pub bytes_of : Option Block → List ℕ
bytes_of none = []
bytes_of (some b) = b.data_bytes

abbrev pub trailer_bytes : Sector → List ℕ
trailer_bytes s = bytes_of (trailer s)

-- `Sector::setTrailer`
abbrev pub set_trailer : Bool → Sector → Sector
set_trailer trailer s = record s { is_trailer = trailer }

-- `Sector::useKeyB`
abbrev pub use_key_b : Bool → Sector → Sector
use_key_b key_b s = record s { key_b = key_b }

-- `Sector::setAuthentificationKey`: `memcpy` of 6 bytes.
abbrev pub set_authentification_key : List ℕ → Sector → Sector
set_authentification_key key s = record s {
  key = for_below 6 (λ i k. set k i (get_or key i 0)) s.key;
}

-- The loop of `setKeyA`: `tmp[i] = keyA[i]`
abbrev pub copy_key_a : List ℕ → Block → Block
copy_key_a key b = for_below 6 (λ i t. set_byte i (get_or key i 0) t) b

-- The loop of `setKeyB`: `tmp[tmp.size() - 1 - i] = keyB[5 - i]`
abbrev pub copy_key_b : List ℕ → Block → Block
copy_key_b key b =
    for_below 6 (λ i t. set_byte (length b.data_bytes - 1 - i) (get_or key (5 - i) 0) t) b

-- `Sector::setKeyA`
unfoldable pub set_key_a : List ℕ → Sector → Option Sector
set_key_a key s = or_none (trailer s) λ tmp.
    let s' = record s { blocks = set s.blocks (last_index s) (copy_key_a key tmp) } in
    some (if s.key_b then s' else set_authentification_key key s')

-- `Sector::setKeyB`
unfoldable pub set_key_b : List ℕ → Sector → Option Sector
set_key_b key s = or_none (trailer s) λ tmp.
    let s' = record s { blocks = set s.blocks (last_index s) (copy_key_b key tmp) } in
    some (if s.key_b then set_authentification_key key s' else s')

-- Sectors of more than four blocks share an access condition among five blocks.
abbrev pub access_group : ℕ → ℕ → ℕ
access_group nb block =
    if ltb 4 nb
    then (if ltb block 5 then 0 else if ltb block 10 then 1 else if ltb block 15 then 2 else 3)
    else block

-- What the `switch` writes to `uchar[block]` and to `uchar[block + 4]` of byte `i`, of the condition
-- bits, third, second and first.
unfoldable pub access_pair : List Bool → ℕ → Bool × Bool
access_pair bits i =
    let c3 = get_or bits 0 false in
    let c2 = get_or bits 1 false in
    let c1 = get_or bits 2 false in
    if i == 6 then (not c1, not c2) else if i == 7 then (not c3, c1) else (c2, c3)

unfoldable pub access_byte : List Bool → ℕ → ℕ → ℕ → ℕ
access_byte bits block i byte =
    let p = access_pair bits i in of_bits (set (set (to_bits 8 byte) block p.0) (block + 4) p.1)

-- `for (size_t i = 6; i < 9; ++i)`
unfoldable pub write_access_bytes : List Bool → ℕ → List ℕ → List ℕ
write_access_bytes bits block =
    for_below 3
      (λ k bytes. set bytes (6 + k) (access_byte bits block (6 + k) (get_or bytes (6 + k) 0)))

-- The common end of both `setPermissions`; `uchar[block + 4]` must be one of 8 bits.
unfoldable pub write_access : List Bool → ℕ → Sector → Option Sector
write_access bits block s = or_none (trailer s) λ tmp.
    let bytes = write_access_bytes bits block tmp.data_bytes in
    if ltb (block + 4) 8
    then some
        (record s { blocks = set s.blocks (last_index s) (record tmp { data_bytes = bytes }) })
    else none

-- `Sector::setPermissions(size_t, bool, bool, bool)`
unfoldable pub set_permissions : ℕ → Bool → Bool → Bool → Sector → Option (Bool × Sector)
set_permissions block c1 c2 c3 s =
    or_none (write_access (c3 ∷ c2 ∷ c1 ∷ []) (access_group (size s) block) s) λ s'. some (true, s')

-- The indices that the search loops push on `tab`.
abbrev pub indices_from : ℕ → ℕ → List ℕ → List ℕ
indices_from i permissions [] = []
indices_from i permissions (x ∷ xs) =
    let rest = indices_from (suc i) permissions xs in if x == permissions then i ∷ rest else rest

abbrev pub has_flag : ℕ → ℕ → Bool
has_flag permissions flag = not (bit_and permissions flag == 0)

-- The end of `setPermissions(size_t, Flag)`, on `tab`.
abbrev pub set_found : List ℕ → ℕ → Sector → Option (Bool × Sector)
set_found [] block s = some (false, s)
set_found (c ∷ d ∷ tab) block s = some (false, s)
set_found (c ∷ []) block s =
    or_none (write_access (to_bits 3 c) (access_group (size s) block) s) λ s'. some (true, s')

-- `Sector::setPermissions(size_t, Flag)`
unfoldable pub set_permissions_flag : ℕ → ℕ → Sector → Option (Bool × Sector)
set_permissions_flag block permissions s =
    if block == last_index s && has_flag permissions b_increment
    then some (false, s)
    else if not (block == last_index s)
        && (has_flag permissions a_write_a || has_flag permissions b_write_a)
    then some (false, s)
    else if leb (size s) block
    then some (false, s)
    else set_found
        (indices_from 0 permissions
          (if block == last_index s then access_trailer else access_block))
        block s

-- `tmp[0] ^ tmp[1] ^ tmp[2] ^ tmp[3] ^ tmp[4]`
abbrev pub xor_of_five : List ℕ → ℕ
xor_of_five bytes =
    let at = λ (i : ℕ). get_or bytes i 0 in
    bit_xor (bit_xor (bit_xor (bit_xor (at 0) (at 1)) (at 2)) (at 3)) (at 4)

-- `Sector::verifyBCC`
unfoldable pub verify_bcc : Sector → Option Bool
verify_bcc s =
    if s.is_trailer
    then or_none (get_elem? s.blocks 0) (λ tmp. some (xor_of_five tmp.data_bytes == 0))
    else some true
