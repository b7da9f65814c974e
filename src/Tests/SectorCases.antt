-- ===== src/Tests/SectorCases.antt =====
-- Sectors: the factory trailer, its access bits and its keys.
use programme_bee_gadz.Common.{
  ℕ, zero, suc, ◌≡◌, inl, refl, true, false, none, some, List, [], ◌∷◌, arith, replicate, get_or,
  get_elem?, if◌then◌else◌, leb, to_bits, of_bits,
}
use programme_bee_gadz.Block.{Block, State, IsBlock, new_block}
use programme_bee_gadz.Sector.{
  Sector, IsSector, trailer_bytes, set_permissions, set_permissions_flag, set_key_a, copy_sector,
  assign_sector, write_access, write_access_bytes, access_byte, access_pair, new_sector,
}
use programme_bee_gadz.Sector.Access.{is_access_bit, sheet_bit, set_permissions_bits}
use programme_bee_gadz.Sector.Access.Bits.{trailer_bit}
use programme_bee_gadz.Sector.Permissions.{
  set_permissions_flag-data, set_permissions_flag-trailer, set_permissions_flag_refuses,
}
use programme_bee_gadz.Sector.Keys.{key_or_kept, set_key_a_lem, assign_sector-copy_sector}

abbrev factory_trailer : Block
factory_trailer = record {
  data_bytes =
      0xff ∷ 0xff ∷ 0xff ∷ 0xff ∷ 0xff ∷ 0xff ∷ 0xff ∷ 0x07 ∷ 0x80 ∷ 0x69 ∷ 0xff ∷ 0xff ∷ 0xff
      ∷ 0xff ∷ 0xff ∷ 0xff ∷ [];
  state = State.dirty;
}

-- The UID 01 02 04 08 with its check byte 0f.
abbrev maker_block : Block
maker_block = record { data_bytes = 1 ∷ 2 ∷ 4 ∷ 8 ∷ 15 ∷ replicate 11 0; state = State.clean }

abbrev factory : Sector
factory = record {
  blocks = maker_block ∷ new_block none ∷ new_block none ∷ factory_trailer ∷ [];
  key = replicate 6 0xff;
  is_trailer = true;
  key_b = false;
}

factory_whole : (i : ℕ) (b : Block) → get_elem? factory.blocks i ≡ some b → IsBlock b
factory_whole zero b e = ground arith
factory_whole (suc zero) b e = ground arith
factory_whole (suc (suc zero)) b e = ground arith
factory_whole (suc (suc (suc zero))) b e = ground arith
factory_whole (suc (suc (suc (suc i)))) b e = cc

factory-IsSector : IsSector factory
factory-IsSector = record {
  nonempty = omega arith;
  fits = omega arith;
  whole = factory_whole;
  key_length = refl;
}

-- Condition bits 1 0 0 for block 0: the factory's ff 07 80 becomes fe 17 80.
set_permissions_run :
    set_permissions 0 true false false factory
    ≡ some (
      true,
      record factory {
        blocks =
            maker_block
            ∷ new_block none
            ∷ new_block none
            ∷ (record factory_trailer {
              data_bytes =
                  0xff ∷ 0xff ∷ 0xff ∷ 0xff ∷ 0xff ∷ 0xff ∷ 0xfe ∷ 0x17 ∷ 0x80 ∷ 0x69 ∷ 0xff ∷ 0xff
                  ∷ 0xff ∷ 0xff ∷ 0xff ∷ 0xff ∷ [];
            })
            ∷ [];
      },
    )
unfolding set_permissions write_access write_access_bytes access_byte access_pair to_bits of_bits
set_permissions_run = refl

set_permissions_bits_example :
    (s' : Sector) × (set_permissions 1 true false true factory ≡ some (true, s'))
    × ((i k : ℕ)
        → trailer_bit (trailer_bytes s') i k ≡ (
            if is_access_bit 1 i k
            then sheet_bit true false true i (leb 4 k)
            else trailer_bit (trailer_bytes factory) i k))
set_permissions_bits_example =
    set_permissions_bits 1 true false true factory factory-IsSector (omega arith)

set_permissions_flag-data_example :
    set_permissions_flag 1 0xd0 factory ≡ set_permissions 1 true false false factory
unfolding of_bits
set_permissions_flag-data_example =
    set_permissions_flag-data 1 true false false factory (omega arith) (omega arith)

set_permissions_flag-trailer_example : set_permissions_flag 3 0xc0 factory ≡ some (false, factory)
unfolding of_bits
set_permissions_flag-trailer_example =
    set_permissions_flag-trailer 3 true true false factory (omega arith) refl

set_permissions_flag_refuses_example : set_permissions_flag 4 0xff factory ≡ some (false, factory)
set_permissions_flag_refuses_example =
    set_permissions_flag_refuses 4 0xff factory (inl (omega arith))

abbrev new_key : List ℕ
new_key = 1 ∷ 2 ∷ 3 ∷ 4 ∷ 5 ∷ 6 ∷ []

set_key_a_lem_example :
    (s' : Sector) × (set_key_a new_key factory ≡ some s')
    × ((i : ℕ) → get_or (trailer_bytes s') i 0 ≡ key_or_kept 0 new_key (trailer_bytes factory) i)
    × (s'.key ≡ new_key)
    × IsSector s'
set_key_a_lem_example = set_key_a_lem new_key factory factory-IsSector refl

assign_sector-copy_sector_example :
    (copy_sector (replicate 6 0) factory ≡ factory)
    × (assign_sector (new_sector false 4 true) factory
        ≡ record (copy_sector (replicate 6 0) factory) { key_b = true })
assign_sector-copy_sector_example =
    assign_sector-copy_sector (replicate 6 0) (new_sector false 4 true) factory refl refl refl
