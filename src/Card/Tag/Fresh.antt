-- ===== src/Card/Tag/Fresh.antt =====
-- The card that `NfcDevice::findCard` (src/nfc_driver.cpp) makes of a tag with the constructor of
-- src/card.cpp: its blocks are blank in memory.
use programme_bee_gadz.Common.{
  ℕ, zero, suc, ◌≡◌, refl, ◌∙◌, Bool, true, false, some, none, List, [], ◌∷◌, ok, pos, ℤ, length,
  get_elem?, take, replicate, length-write_at, ◌==◌, is_negative, inl, inr, Bool-cases,
}
use programme_bee_gadz.Block.{Block, IsBlock, new_block}
use programme_bee_gadz.Sector.{Sector, new_sector}
use programme_bee_gadz.Mifare.{Libnfc, Property, Target, MifareParam}
use programme_bee_gadz.NfcDevice.{Env, infinite_select}
use programme_bee_gadz.Card.State.{recognise, new_card, classic_card}
use programme_bee_gadz.Card.Sectors.{found_card, find_card}
use programme_bee_gadz.Card.Tag.{IsClassic, IsClassicCard, Stands}

-- What the program relies on of a reader with a tag before it, beside `IsMifare`: the tag is found
-- and is the target, and neither that nor the mode of the search changes what the tag holds.
pub record IsFound {D : Type 0} (nfc : Libnfc D) (content : D → ℕ → List ℕ) (target : Target)
    : Type 0 where
  pub mode :
      (d : D)
      → (r : ℤ) × (d' : D) × (nfc.set_property_bool Property.infinite_select false d ≡ (r, d'))
        × ((n : ℕ) → content d' n ≡ content d n)
  pub selected :
      (d : D)
      → (n : ℕ) × (d' : D) × (nfc.select_passive_target [] d ≡ (pos (suc n), target, d'))
        × ((m : ℕ) → content d' m ≡ content d m)

-- A predicate of all elements of a list.
abbrev pub All : {A : Type 0} → (A → Type 0) → List A → Type 0
All P [] = Unit
All P (x ∷ xs) = P x × All P xs

pub All-get :
    {A : Type 0} (P : A → Type 0) (xs : List A)
    → All P xs
    → (j : ℕ) (x : A) → get_elem? xs j ≡ some x
    → P x
All-get P [] all j x e = cc
All-get P (y ∷ xs) all zero x e = let same : y ≡ x = cc in rw (← same) all.0
All-get P (y ∷ xs) all (suc j) x e = All-get P xs all.1 j x e

-- A sector of four whole blocks is one of a classic card.
pub four_blocks-IsClassic :
    (s : Sector)
    → length s.blocks ≡ 4
    → All IsBlock s.blocks
    → length s.key ≡ 6
    → s.key_b ≡ false
    → IsClassic s
four_blocks-IsClassic s four whole six key_a = record {
  four = four;
  whole = All-get IsBlock s.blocks whole;
  key_length = six;
  key_a = key_a;
}

-- The blocks of a card that has not been read
abbrev pub unread_blocks : List (List Block)
unread_blocks = replicate 16 (replicate 4 (new_block none))

fresh-IsClassic :
    (is_trailer : Bool) → IsClassic (record (new_sector false 4 false) { is_trailer = is_trailer })
fresh-IsClassic is_trailer =
    four_blocks-IsClassic _ refl (refl, (refl, (refl, (refl, tt)))) refl refl

classic_card-IsClassicCard :
    (keys : List ℕ) (target : Target) (raw : MifareParam)
    → length keys ≡ 6
    → length (take 4 target.uid) ≡ 4
    → length raw ≡ 16
    → IsClassicCard keys (take 4 target.uid) (classic_card keys target [] raw)
classic_card-IsClassicCard keys target raw six four sixteen =
    let f = fresh-IsClassic false in
    record {
      keys = refl;
      one_key = six;
      uid_is = refl;
      four_bytes = four;
      param = length-write_at 6 (take 4 target.uid) raw ∙ sixteen;
      count = refl;
      classic = All-get IsClassic (classic_card keys target [] raw).sectors (
        fresh-IsClassic true,
        (f, (f, (f, (f, (f, (f, (f, (f, (f, (f, (f, (f, (f, (f, (f, tt))))))))))))))),
      );
    }

module _ {D : Type 0} {nfc : Libnfc D} {content : D → ℕ → List ℕ} {target : Target}
    (reader : IsFound nfc content target) where
  -- The mode of the search is set, or cannot be; the tag is as before.
  pub infinite_select_lem :
      (e : Env D)
      → (b : Bool) × ((infinite_select nfc false e).0 ≡ ok b)
        × ((n : ℕ) → content (infinite_select nfc false e).1.device n ≡ content e.device n)
  unfolding infinite_select
  infinite_select_lem e = elim (Bool-cases e.infinite) [
    | inl on ↦
        let (r, d, answered, same) = reader.mode e.device in
        elim (Bool-cases (is_negative r)) [
          | inl bad ↦ rw (on, answered, bad) (false, refl, same)
          | inr good ↦ rw (on, answered, good) (true, refl, same)
        ]
    | inr off ↦ rw off (true, refl, λ n. refl)
  ]

  -- A tag of a type that is recognised is found, and its card stands beside it.
  pub find_card-Stands :
      (keys : List ℕ) (raw : MifareParam) (e : Env D)
      → target.atqa_low ≡ 4
      → length keys ≡ 6
      → length (take 4 target.uid) ≡ 4
      → length raw ≡ 16
      → ((find_card nfc keys false raw e).0 ≡ ok (some (classic_card keys target [] raw)))
        × Stands content keys (take 4 target.uid) (content e.device) unread_blocks (record {
          card = classic_card keys target [] raw;
          env = (find_card nfc keys false raw e).1;
        })
  unfolding find_card found_card new_card recognise
  find_card-Stands keys raw e known six four sixteen =
      let (b, moded, same) = infinite_select_lem e in
      let e1 = (infinite_select nfc false e).1 in
      let (n, d, answered, same') = reader.selected e1.device in
      let is_known : (target.atqa_low == 4) ≡ true = rw known refl in
      rw (moded, answered, is_known)
        (
          refl,
          record {
            card = classic_card-IsClassicCard keys target raw six four sixteen;
            memory = refl;
            on_tag = λ m. same' m ∙ same m;
          },
        )
