-- ===== src/Sector/Shape.antt =====
-- The trailer of a well-formed sector, and how a change of it keeps the sector well formed.
use programme_bee_gadz.Common.{
  ℕ, zero, suc, ◌+◌, ◌-◌, ◌%◌, ◌^◌, ◌<◌, ◌≡◌, ap, ◌∙◌, some, List, [], ◌∷◌, arith, get_elem?, set,
  length-set, get_elem?-set_self, get_elem?-some,
}
use programme_bee_gadz.Block.{Block, IsBlock}
use programme_bee_gadz.Sector.{Sector, IsSector, trailer, size, last_index}

pub last_index-lt : (s : Sector) → IsSector s → last_index s < size s
last_index-lt s v = omega (arith, v.nonempty, v.fits)

pub last_index-suc : (s : Sector) → IsSector s → suc (last_index s) ≡ size s
last_index-suc s v = omega (arith, v.nonempty, v.fits)

-- A well-formed sector has a trailer.
pub trailer-some : (s : Sector) → IsSector s → (tmp : Block) × (trailer s ≡ some tmp)
trailer-some s v = get_elem?-some s.blocks (last_index s) (last_index-lt s v)

-- The trailer that was stored is the trailer that is found.
pub trailer-set :
    (s : Sector) (b : Block)
    → IsSector s
    → trailer (record s { blocks = set s.blocks (last_index s) b }) ≡ some b
trailer-set s b v =
    ap (λ n. get_elem? (set s.blocks (last_index s) b) ((n + 2 ^ 64 - 1) % 2 ^ 64))
      (length-set s.blocks (last_index s) b)
    ∙ get_elem?-set_self s.blocks (last_index s) b (last_index-lt s v)

set-whole :
    (bs : List Block) (k : ℕ) (b : Block)
    → ((i : ℕ) (c : Block) → get_elem? bs i ≡ some c → IsBlock c)
    → IsBlock b
    → (i : ℕ) (c : Block) → get_elem? (set bs k b) i ≡ some c
    → IsBlock c
set-whole [] k b whole h i c e = cc
set-whole (x ∷ bs) zero b whole h zero c e = ground arith
set-whole (x ∷ bs) zero b whole h (suc i) c e = whole (suc i) c e
set-whole (x ∷ bs) (suc k) b whole h zero c e = whole 0 c e
set-whole (x ∷ bs) (suc k) b whole h (suc i) c e = set-whole bs k b (λ j d. whole (suc j) d) h i c e

-- Storing a block of 16 bytes keeps a sector well formed.
pub set-IsSector :
    (s : Sector) (k : ℕ) (b : Block)
    → IsSector s
    → IsBlock b
    → IsSector (record s { blocks = set s.blocks k b })
set-IsSector s k b v h = record {
  nonempty = rw (length-set s.blocks k b) v.nonempty;
  fits = rw (length-set s.blocks k b) v.fits;
  whole = set-whole s.blocks k b v.whole h;
  key_length = v.key_length;
}
