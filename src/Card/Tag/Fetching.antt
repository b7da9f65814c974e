-- ===== src/Card/Tag/Fetching.antt =====
-- One block that is read from the tag (`Card::authenticate` and `Card::readData` in `readMifareClassic`, of
-- src/card.cpp): the sector in memory takes it.
use programme_bee_gadz.Common.{
  ℕ, ◌+◌, ◌*◌, ◌%◌, ◌^◌, ◌<◌, ◌≡◌, refl, ap, ◌∙◌, sym, Bool, true, some, List, [], ◌∷◌, arith, ok,
  pos, length, get_elem?, get_elem?-some, set, length-set, get_elem?-set_self, get_elem?-set_ne,
  Bool-cases, inl, inr, lt_of_get_elem?, ◌==◌, ==_iff, ◌≢◌,
}
use programme_bee_gadz.Block.{Block, State, IsBlock}
use programme_bee_gadz.Sector.{Sector}
use programme_bee_gadz.Mifare.{Libnfc}
use programme_bee_gadz.Card.State.{Card, Held}
use programme_bee_gadz.Card.Commands.{authenticate, read_data}
use programme_bee_gadz.Card.Sectors.{read_block}
use programme_bee_gadz.Card.Data.{read_data_runs}
use programme_bee_gadz.Card.Contents.{blocks_of}
use programme_bee_gadz.Card.Tag.{
  IsMifare, IsClassic, IsClassicCard, Stands, the_sector_of, classic_place, put_sector-IsClassic,
  blocks_of-set_any,
}
use programme_bee_gadz.Card.Tag.Opening.{authenticate-Stands}

-- A block of the tag as it stands in memory when it has been read.
abbrev pub clean_block : List ℕ → Block
clean_block bytes = record { data_bytes = bytes; state = State.clean }

-- A block of a sector that is put in its place again, changed.
pub put_block-IsClassic :
    (s : Sector) (p : ℕ) (b : Block)
    → IsClassic s
    → IsBlock b
    → IsClassic (record s { blocks = set s.blocks p b })
put_block-IsClassic s p b is whole = record {
  four = length-set s.blocks p b ∙ is.four;
  whole = λ j b' e. elim (Bool-cases (p == j)) [
    | inl equal ↦
        let same : p ≡ j = (==_iff p j).0 equal in
        let inside : j < length s.blocks =
          omega (arith, lt_of_get_elem? (set s.blocks p b) j e, length-set s.blocks p b) in
        let at : get_elem? (set s.blocks j b) j ≡ some b' =
          ap (λ i. get_elem? (set s.blocks i b) j) (sym same) ∙ e in
        let put : some b ≡ some b' = sym (get_elem?-set_self s.blocks j b inside) ∙ at in
        let is_new : b ≡ b' = cc in rw (← is_new) whole
    | inr unequal ↦
        let other : p ≢ j = λ same. (let equal = (==_iff p j).1 same in cc) in
        is.whole j b' (sym (get_elem?-set_ne s.blocks p j b other) ∙ e)
  ];
  key_length = is.key_length;
  key_a = is.key_a;
}

-- The card with a block of it read.
read_card : Card → ℕ → ℕ → Sector → List ℕ → Card
read_card c sector place s bytes = record c {
  param = bytes;
  sectors = set c.sectors sector (record s { blocks = set s.blocks place (clean_block bytes) });
}

read_card-IsClassicCard :
    {key uid : List ℕ} (c : Card) (sector place : ℕ) (s : Sector) (bytes : List ℕ)
    → IsClassicCard key uid c
    → get_elem? c.sectors sector ≡ some s
    → length bytes ≡ 16
    → IsClassicCard key uid (read_card c sector place s bytes)
unfolding read_card
read_card-IsClassicCard c sector place s bytes v there whole =
    let s' = record s { blocks = set s.blocks place (clean_block bytes) } in
    record {
      keys = v.keys;
      one_key = v.one_key;
      uid_is = v.uid_is;
      four_bytes = v.four_bytes;
      param = whole;
      count = length-set c.sectors sector s' ∙ v.count;
      classic =
          put_sector-IsClassic c.sectors sector s' v.classic
            (put_block-IsClassic s place (clean_block bytes) (v.classic sector s there) whole);
    }

module _ {D : Type 0} {nfc : Libnfc D} {content : D → ℕ → List ℕ} {opened : D → ℕ → Bool}
    {key uid : List ℕ} (reader : IsMifare nfc content opened key uid) (sector place : ℕ)
    (inside : sector < 16) (small : place < 4) {tag : ℕ → List ℕ} {blocks : List (List Block)}
    {xs : List Block} (here : get_elem? blocks sector ≡ some xs) where
  read_data-Stands :
      (h : Held D)
      → Stands content key uid tag blocks h
      → opened h.env.device (4 * sector + place) ≡ true
      → ((read_data nfc (4 * sector + place) h).0 ≡ ok true)
        × Stands content key uid tag
            (set blocks sector (set xs place (clean_block (tag (4 * sector + place)))))
            (read_data nfc (4 * sector + place) h).1
  read_data-Stands h v on =
      let block : ℕ = 4 * sector + place in
      let byte : block % 2 ^ 8 ≡ block = omega arith in
      let (s, there, is, same_blocks) = the_sector_of h sector v inside here in
      let (b, at) = get_elem?-some s.blocks place (omega (arith, is.four)) in
      let (r, d1, framed, same, still) = reader.framing h.env.device in
      let (whole, d2, answered, kept) = reader.reads d1 block (still block ∙ on) in
      let sent : nfc.transceive_bytes (0x30 ∷ block % 2 ^ 8 ∷ []) d1
          ≡ (pos 16, content d1 block, d2) =
        rw byte answered in
      let (done, card, device) =
        read_data_runs nfc block h (classic_place v.card sector inside place small) there at
          (is.whole place b at) v.card.param whole framed sent in
      let bytes : content d1 block ≡ tag block = same block ∙ v.on_tag block in
      (
        done,
        record {
          card = rw card (
              unfold read_card in
              read_card-IsClassicCard h.card sector place s (content d1 block) v.card there whole);
          memory =
              ap (λ c. blocks_of c.sectors) card
              ∙ blocks_of-set_any h.card.sectors sector
                  (record s { blocks = set s.blocks place (clean_block (content d1 block)) })
              ∙ rw (v.memory, same_blocks, bytes) refl;
          on_tag = λ m. ap (λ d. content d m) device ∙ kept m ∙ same m ∙ v.on_tag m;
        },
      )

  -- The block of the tag is opened and fetched.
  pub read_block-Stands :
      (h : Held D)
      → Stands content key uid tag blocks h
      → ((read_block nfc (4 * sector + place) h).0 ≡ ok tt)
        × Stands content key uid tag
            (set blocks sector (set xs place (clean_block (tag (4 * sector + place)))))
            (read_block nfc (4 * sector + place) h).1
  unfolding read_block
  read_block-Stands h v =
      let (entered, v', on) = authenticate-Stands reader sector place inside small h v in
      let h' = (authenticate nfc (4 * sector + place) h).1 in
      let (done, v'') = read_data-Stands h' v' on in rw (entered, done) (refl, v'')
