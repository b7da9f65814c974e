-- ===== src/Tests/Reader.antt =====
-- A reader with one tag before it, as a concrete function in the place of libnfc.
use programme_bee_gadz.Common.{
  ℕ, ◌/◌, ◌==◌, Bool, false, Option, none, some, List, [], ◌∷◌, ◌++◌, if◌then◌else◌, take,
  replicate, same_text, ℤ, pos, negsuc,
}
use programme_bee_gadz.Mifare.{Libnfc, Target}

-- A MIFARE Classic tag: its key A for every sector, the sector that is open, and its blocks.
pub record Tag : Type 0 where
  pub present : Bool
  pub key : List ℕ
  pub open_sector : Option ℕ
  pub cells : ℕ → List ℕ

abbrev pub sixteen : List ℕ → List ℕ
sixteen bytes = take 16 (bytes ++ replicate 16 0)

abbrev pub is_open : Option ℕ → ℕ → Bool
is_open none block = false
is_open (some sector) block = sector == block / 4

-- The tag's answer to a command, its block number and what follows.
abbrev pub answer : ℕ → ℕ → List ℕ → Tag → ℤ × List ℕ × Tag
answer cmd block rest t =
    if cmd == 0x60
    then (if same_text (take 6 rest) t.key
        then (pos 0, [], record t { open_sector = some (block / 4) })
        else (negsuc 0, [], record t { open_sector = none }))
    else if is_open t.open_sector block
    then (if cmd == 0x30
        then (pos 16, sixteen (t.cells block), t)
        else (pos 0, [], record t { cells = λ n. if n == block then rest else t.cells n }))
    else (negsuc 0, [], t)

abbrev pub transmit : List ℕ → Tag → ℤ × List ℕ × Tag
transmit [] t = (negsuc 0, [], t)
transmit (cmd ∷ []) t = (negsuc 0, [], t)
transmit (cmd ∷ block ∷ rest) t = if t.present then answer cmd block rest t else (negsuc 0, [], t)

abbrev pub target : Target
target = record {
  uid = 0xde ∷ 0xad ∷ 0xbe ∷ 0xef ∷ 0 ∷ 0 ∷ 0 ∷ 0 ∷ 0 ∷ 0 ∷ [];
  uid_length = 4;
  atqa_low = 4;
}

abbrev pub reader : Libnfc Tag
reader = record {
  set_property_bool = λ p v t. (pos 0, t);
  transceive_bytes = transmit;
  select_passive_target = λ uid t. (if t.present then pos 1 else pos 0, target, t);
}
