-- ===== src/Card/Tag/Opening.antt =====
-- `Card::authenticate` (src/card.cpp) on a tag that the card's key opens.
use programme_bee_gadz.Common.{
  ℕ, zero, suc, ◌+◌, ◌*◌, ◌%◌, ◌^◌, ◌≤◌, ◌<◌, ◌≡◌, refl, ap, ◌∙◌, Bool, true, false, some, List, [],
  ◌∷◌, ◌++◌, arith, ok, pos, length, get_elem?, set, take, write_at, take-whole, take-write_at,
  write_nothing, length-write_at, length-set, le→leb,
}
use programme_bee_gadz.Block.{Block}
use programme_bee_gadz.Sector.{Sector}
use programme_bee_gadz.Sector.Copies.{copied_key}
use programme_bee_gadz.Mifare.{
  Libnfc, Property, param_length, take_answer, send_frame, nfc_initiator_mifare_cmd,
}
use programme_bee_gadz.NfcDevice.{mifare_cmd}
use programme_bee_gadz.Card.Layout.{calculate_sector}
use programme_bee_gadz.Card.State.{Card, Held, uid_of}
use programme_bee_gadz.Card.Commands.{load_key, command, auth_round, auth_loop, authenticate}
use programme_bee_gadz.Card.Authenticate.Steps.{begun, authenticate_lem}
use programme_bee_gadz.Card.Contents.{blocks_of, blocks_of-set_same}
use programme_bee_gadz.Card.Tag.{
  IsMifare, IsClassic, IsClassicCard, Stands, the_sector-IsClassic, classic_place,
  put_sector-IsClassic,
}

-- `abtKey` and `abtAuthUid` one after the other
two_writes :
    (k : ℕ) (xs ys p : List ℕ)
    → k ≡ length xs + length ys
    → k ≤ length p
    → take k (write_at 0 xs (write_at (length xs) ys p)) ≡ xs ++ ys
two_writes k [] ys [] e h =
    let none_left : length ys ≡ 0 = omega arith in
    let done : k ≡ 0 = omega arith in rw done (empty ys none_left)
  where
    empty : (ys : List ℕ) → length ys ≡ 0 → [] ≡ ys
    empty [] e = refl
    empty (y ∷ ys) e = absurd (omega arith)
two_writes k [] ys (z ∷ p) e h =
    let same : k ≡ length ys = omega arith in
    ap (take k) (write_nothing (write_at 0 ys (z ∷ p)))
    ∙ rw same (take-write_at ys (z ∷ p) (omega arith))
two_writes k (x ∷ xs) ys [] e h = absurd (omega arith)
two_writes zero (x ∷ xs) ys (z ∷ p) e h = absurd (omega arith)
two_writes (suc k) (x ∷ xs) ys (z ∷ p) e h =
    ap (λ r. x ∷ r) (two_writes k xs ys p (omega arith) (omega arith))

opened_card : Card → ℕ → Sector → Card
opened_card c sector s = record c {
  param = write_at 0 c.keys (write_at 6 (uid_of c) c.param);
  sectors = set c.sectors sector (record s { key = c.keys; key_b = false });
}

module _ {D : Type 0} (nfc : Libnfc D) (sector block : ℕ) (h : Held D) {s : Sector} {r n : ℕ}
    {d1 d2 : D} {rx : List ℕ} (there : get_elem? h.card.sectors sector ≡ some s)
    (key_a : s.key_b ≡ false) (key_length : length s.key ≡ 6) (keys : length h.card.keys ≡ 6)
    (uid : length (uid_of h.card) ≡ 4) (param : length h.card.param ≡ 16)
    (framed : nfc.set_property_bool Property.easy_framing true h.env.device ≡ (pos r, d1))
    (opened : nfc.transceive_bytes (0x60 ∷ block % 2 ^ 8 ∷ (h.card.keys ++ uid_of h.card)) d1
      ≡ (pos n, rx, d2)) where
  round_runs :
      ((auth_round nfc sector block 0 (begun block h)).0 ≡ ok true)
      × ((auth_round nfc sector block 0 (begun block h)).1.card ≡ opened_card h.card sector s)
      × ((auth_round nfc sector block 0 (begun block h)).1.env.device ≡ d2)
  unfolding auth_round load_key command mifare_cmd nfc_initiator_mifare_cmd send_frame param_length
      take_answer begun opened_card
  round_runs =
      let whole : take 6 h.card.keys ≡ h.card.keys = take-whole 6 h.card.keys keys in
      let copied = copied_key h.card.keys s.key key_length keys in
      let frame : take 10 (write_at 0 h.card.keys (write_at 6 (uid_of h.card) h.card.param))
          ≡ h.card.keys ++ uid_of h.card =
        rw keys at
          (two_writes 10 h.card.keys (uid_of h.card) h.card.param (omega arith) (omega arith)) in
      rw
        (
          le→leb 6 (length h.card.keys) (omega arith),
          there,
          whole,
          copied,
          whole,
          key_a,
          framed,
          frame,
          opened,
        )
        (refl, refl, refl)

  loop_runs :
      (fuel : ℕ)
      → ((auth_loop nfc (suc fuel) sector block 0 (begun block h)).0 ≡ ok true)
        × ((auth_loop nfc (suc fuel) sector block 0 (begun block h)).1
            ≡ (auth_round nfc sector block 0 (begun block h)).1)
  unfolding auth_loop
  loop_runs fuel = let (done, card, device) = round_runs in rw done (refl, refl)

  -- What the whole call makes of the card in memory.
  authenticate_runs :
      {place : ℕ}
      → calculate_sector block h.card.sectors ≡ some (sector, place)
      → ((authenticate nfc block h).0 ≡ ok true)
        × ((authenticate nfc block h).1.card ≡ opened_card h.card sector s)
        × ((authenticate nfc block h).1.env.device ≡ d2)
  authenticate_runs at =
      let (done, ends) = loop_runs (length h.card.keys) in
      let (first, card, device) = round_runs in
      rw (authenticate_lem nfc block h at)
        (done, ap (λ t. t.card) ends ∙ card, ap (λ t. t.env.device) ends ∙ device)

module _ {key uid : List ℕ} (c : Card) (sector : ℕ) (s : Sector) (v : IsClassicCard key uid c)
    (there : get_elem? c.sectors sector ≡ some s) where
  -- The sector that is given the card's key is as it was, but for the key.
  keyed-IsClassic : IsClassic (record s { key = c.keys; key_b = false })
  keyed-IsClassic =
      let is = v.classic sector s there in
      record {
        four = is.four;
        whole = is.whole;
        key_length = ap length v.keys ∙ v.one_key;
        key_a = refl;
      }

  opened_card-IsClassicCard : IsClassicCard key uid (opened_card c sector s)
  unfolding opened_card
  opened_card-IsClassicCard = record {
    keys = v.keys;
    one_key = v.one_key;
    uid_is = v.uid_is;
    four_bytes = v.four_bytes;
    param =
        length-write_at 0 c.keys (write_at 6 (uid_of c) c.param)
        ∙ length-write_at 6 (uid_of c) c.param
        ∙ v.param;
    count = length-set c.sectors sector (record s { key = c.keys; key_b = false }) ∙ v.count;
    classic =
        put_sector-IsClassic c.sectors sector (record s { key = c.keys; key_b = false }) v.classic
          keyed-IsClassic;
  }

  opened_card-blocks : blocks_of (opened_card c sector s).sectors ≡ blocks_of c.sectors
  unfolding opened_card
  opened_card-blocks =
      blocks_of-set_same c.sectors sector s (record s { key = c.keys; key_b = false }) there refl

module _ {D : Type 0} {nfc : Libnfc D} {content : D → ℕ → List ℕ} {opened : D → ℕ → Bool}
    {key uid : List ℕ} (reader : IsMifare nfc content opened key uid) (sector place : ℕ)
    (inside : sector < 16) (small : place < 4) {tag : ℕ → List ℕ} {blocks : List (List Block)} where
  -- The call returns true, leaves the blocks in memory and those on the tag, and opens the block.
  pub authenticate-Stands :
      (h : Held D)
      → Stands content key uid tag blocks h
      → ((authenticate nfc (4 * sector + place) h).0 ≡ ok true)
        × Stands content key uid tag blocks (authenticate nfc (4 * sector + place) h).1
        × (opened (authenticate nfc (4 * sector + place) h).1.env.device (4 * sector + place)
            ≡ true)
  authenticate-Stands h v =
      let block : ℕ = 4 * sector + place in
      let low : block < 64 = omega arith in
      let byte : block % 2 ^ 8 ≡ block = omega arith in
      let (s, there, is) = the_sector-IsClassic v.card sector inside in
      let (r, d1, framed, same, still) = reader.framing h.env.device in
      let (n, rx, d2, answered, kept, on) = reader.opens d1 block low in
      let sent : nfc.transceive_bytes (0x60 ∷ block % 2 ^ 8 ∷ (h.card.keys ++ uid_of h.card)) d1
          ≡ (pos n, rx, d2) =
        rw (byte, v.card.keys, v.card.uid_is) answered in
      let six : length h.card.keys ≡ 6 = ap length v.card.keys ∙ v.card.one_key in
      let four : length (uid_of h.card) ≡ 4 = ap length v.card.uid_is ∙ v.card.four_bytes in
      let (done, card, device) =
        authenticate_runs nfc sector block h there is.key_a is.key_length six four v.card.param
          framed sent (classic_place v.card sector inside place small) in
      (
        done,
        record {
          card = rw card (opened_card-IsClassicCard h.card sector s v.card there);
          memory =
              ap (λ c. blocks_of c.sectors) card
              ∙ opened_card-blocks h.card sector s v.card there
              ∙ v.memory;
          on_tag = λ m. ap (λ d. content d m) device ∙ kept m ∙ same m ∙ v.on_tag m;
        },
        ap (λ d. opened d block) device ∙ on,
      )
