-- ===== src/Mode/Memory.antt =====
-- The blocks of sector 1 of the card that a mode holds (src/mode.cpp): how they are read, changed in
-- memory, and kept when the card is written.
use programme_bee_gadz.Common.{
  ℕ, zero, suc, ◌≡◌, refl, sym, ap, ◌∙◌, Bool, true, false, Option, none, some, List, [], ◌∷◌,
  Action, Result, ok, threw, fault, continue, ◌>>◌, pure, handle, codes, if◌then◌else◌, set,
  get_elem?,
}
use programme_bee_gadz.Block.{Block}
use programme_bee_gadz.Sector.{Sector}
use programme_bee_gadz.Mifare.{Libnfc}
use programme_bee_gadz.Card.State.{Card, Held}
use programme_bee_gadz.Card.Commands.{the_block}
use programme_bee_gadz.Card.Sectors.{write_sector}
use programme_bee_gadz.Card.Contents.{blocks_of, write_sector-Keeps}
use programme_bee_gadz.Mode.{read_block, change_block, write_card}
use programme_bee_gadz.Mode.Members.{Desk, with_card, on_card, show_info, show_error}

abbrev pub sector_one : Option Card → Option (List Block)
sector_one none = none
sector_one (some c) = get_elem? (blocks_of c.sectors) 1

-- The mode holds a card whose sector 1 has these blocks in memory.
abbrev pub Holds : {D F : Type 0} → Desk D F → List Block → Type 0
Holds k blocks = sector_one k.card ≡ some blocks

blocks_of-some :
    (sectors : List Sector) (i : ℕ) {blocks : List Block}
    → get_elem? (blocks_of sectors) i ≡ some blocks
    → (s : Sector) × (get_elem? sectors i ≡ some s) × (s.blocks ≡ blocks)
blocks_of-some [] i e = cc
blocks_of-some (s ∷ sectors) zero e = (s, refl, cc)
blocks_of-some (s ∷ sectors) (suc i) e = blocks_of-some sectors i e

blocks_of-set :
    (sectors : List Sector) (i : ℕ) (s s' : Sector)
    → get_elem? sectors i ≡ some s
    → get_elem? (blocks_of (set sectors i s')) i ≡ some s'.blocks
blocks_of-set [] i s s' e = cc
blocks_of-set (x ∷ sectors) zero s s' e = refl
blocks_of-set (x ∷ sectors) (suc i) s s' e = blocks_of-set sectors i s s' e

module _ {D : Type 0} where
  -- The call returns, and takes blocks `xs` of sector 1 to blocks `ys`.
  abbrev pub Makes : Action (Held D) (Unit {0}) → List Block → List Block → Type 0
  Makes m xs ys =
      (h : Held D)
      → get_elem? (blocks_of h.card.sectors) 1 ≡ some xs
      → ((m h).0 ≡ ok tt) × (get_elem? (blocks_of (m h).1.card.sectors) 1 ≡ some ys)

  pub then_Makes :
      (m n : Action (Held D) (Unit {0})) {xs ys zs : List Block}
      → Makes m xs ys
      → Makes n ys zs
      → Makes (m >> n) xs zs
  then_Makes m n {xs} {ys} {zs} p q h e = second (m h) (p h e).0 (p h e).1
    where
      second :
          (r : Result (Unit {0}) × Held D)
          → r.0 ≡ ok tt
          → get_elem? (blocks_of r.1.card.sectors) 1 ≡ some ys
          → ((continue (λ u. n) r).0 ≡ ok tt)
            × (get_elem? (blocks_of (continue (λ u. n) r).1.card.sectors) 1 ≡ some zs)
      second (ok u, h) same at = q h at
      second (threw, h) same at = cc
      second (fault, h) same at = cc

  pub change_block-Makes :
      (i : ℕ) (f : Block → Block) (xs : List Block) {b : Block}
      → get_elem? xs i ≡ some b
      → Makes (change_block {D = D} i f) xs (set xs i (f b))
  change_block-Makes i f xs {b} at h e =
      let (s, there, blocks) = blocks_of-some h.card.sectors 1 e in
      let block : get_elem? s.blocks i ≡ some b = rw blocks at in
      (
        rw (there, block, there) refl,
        rw (there, block, there)
            (blocks_of-set h.card.sectors 1 s (record s { blocks = set s.blocks i (f b) }) there
              ∙ ap (λ ys. some (set ys i (f b))) blocks),
      )

module _ {D F : Type 0} where
  read_of :
      (o : Option Card) (k : Desk D F) (i : ℕ) {xs : List Block} {b : Block}
      → k.card ≡ o
      → sector_one o ≡ some xs
      → get_elem? xs i ≡ some b
      → with_card o (the_block 1 i) k ≡ (ok b, k)
  read_of none k i {xs} {b} at e here = cc
  read_of (some c) k i {xs} {b} at e here =
      let (s, there, blocks) = blocks_of-some c.sectors 1 e in
      let block : get_elem? s.blocks i ≡ some b = rw blocks here in
      rw (there, block) (ap (λ o. (ok b, record k { card = o })) (sym at))

  pub read_block_lem :
      (k : Desk D F) (i : ℕ) {xs : List Block} {b : Block}
      → Holds k xs
      → get_elem? xs i ≡ some b
      → read_block i k ≡ (ok b, k)
  read_block_lem k i e here = read_of k.card k i refl e here

  made_of :
      (o : Option Card) (k : Desk D F) (m : Action (Held D) (Unit {0})) {xs ys : List Block}
      → Makes m xs ys
      → sector_one o ≡ some xs
      → ((with_card o m k).0 ≡ ok tt) × Holds (with_card o m k).1 ys
  made_of none k m p e = cc
  made_of (some c) k m p e = p (record { card = c; env = k.env }) e

  pub on_card-Makes :
      (m : Action (Held D) (Unit {0})) (k : Desk D F) {xs ys : List Block}
      → Makes m xs ys
      → Holds k xs
      → ((on_card m k).0 ≡ ok tt) × Holds (on_card m k).1 ys
  on_card-Makes m k p e = made_of k.card k m p e

module _ {D F : Type 0} (nfc : Libnfc D) where
  kept_of :
      (o : Option Card) (k : Desk D F) {xs : List Block}
      → sector_one o ≡ some xs
      → Holds (with_card o (write_sector nfc 1) k).1 xs
  kept_of none k e = cc
  kept_of (some c) k e =
      let h : Held D = record { card = c; env = k.env } in
      ap (λ blocks. get_elem? blocks 1) (write_sector-Keeps nfc 1 h) ∙ e

  reported :
      (r : Result Bool × Desk D F) {xs : List Block}
      → Holds r.1 xs
      → Holds
          (handle (pure tt) (
            continue
              (λ done. if done then show_info (codes "OK") else show_error (codes "NON OK"))
              r)).1
          xs
  reported (ok true, k) e = e
  reported (ok false, k) e = e
  reported (threw, k) e = e
  reported (fault, k) e = e

  -- Whatever the reader does, the card in memory is as it was.
  pub write_card-Holds :
      (k : Desk D F) {xs : List Block} → Holds k xs → Holds (write_card nfc k).1 xs
  unfolding write_card
  write_card-Holds k e =
      let k' = (show_info (codes "NE PAS ENLEVER LA CARTE, ECRITURE EN COURS") k).1 in
      reported (on_card (write_sector nfc 1) k') (kept_of k'.card k' e)
