-- ===== src/Card/Contents.antt =====
-- The commands that open and write a card leave its copy in memory as it is (src/card.cpp): the
-- blocks of every sector, for any answers of the tag.
use programme_bee_gadz.Common.{
  ℕ, zero, suc, ◌+◌, ◌%◌, ◌^◌, ◌≡◌, refl, ap, ◌∙◌, ◌*◌, Bool, true, false, Option, none, some, List,
  [], ◌∷◌, Action, Result, ok, threw, fault, continue, ◌>>=◌, ◌>>◌, pure, in_range, if◌then◌else◌,
  set, get_elem?, ltb, length, write_at, codes, ◌++◌,
}
use programme_bee_gadz.Block.{Block, is_modified}
use programme_bee_gadz.Sector.{Sector, size, set_authentification_key}
use programme_bee_gadz.Printer.Numerals.{hex_of}
use programme_bee_gadz.Mifare.{Libnfc, MifareCmd}
use programme_bee_gadz.NfcDevice.{mifare_cmd, find_card_uid}
use programme_bee_gadz.Card.Layout.{calculate_sector, calculate_block}
use programme_bee_gadz.Card.State.{Held, on_env, the_sector}
use programme_bee_gadz.Card.Commands.{
  key_at, auth_cmd, the_block, show_debug, load_key, command, check_present, auth_round, auth_loop,
  authenticate, send_block, write_data,
}
use programme_bee_gadz.Printer.{array_to_string}
use programme_bee_gadz.Card.Authenticate.Steps.{begun, authenticate_lem}
use programme_bee_gadz.Card.Sectors.{
  first_block, write_one, write_block, write_blocks, write_mifare_classic, write_sector,
}

-- The blocks of each sector.
abbrev pub blocks_of : List Sector → List (List Block)
blocks_of [] = []
blocks_of (s ∷ sectors) = s.blocks ∷ blocks_of sectors

pub blocks_of-set_same :
    (sectors : List Sector) (k : ℕ) (s s' : Sector)
    → get_elem? sectors k ≡ some s
    → s'.blocks ≡ s.blocks
    → blocks_of (set sectors k s') ≡ blocks_of sectors
blocks_of-set_same [] k s s' at e = refl
blocks_of-set_same (x ∷ sectors) zero s s' at e = let same : x ≡ s = cc in rw (e, same) refl
blocks_of-set_same (x ∷ sectors) (suc k) s s' at e =
    ap (λ rest. x.blocks ∷ rest) (blocks_of-set_same sectors k s s' at e)

module _ {D : Type 0} where
  -- However the call ends, the blocks are the ones from before.
  abbrev pub Keeps : {A : Type 0} → Action (Held D) A → Type 0
  Keeps m = (h : Held D) → blocks_of (m h).1.card.sectors ≡ blocks_of h.card.sectors

  continue-Keeps :
      {A B : Type 0} (f : A → Action (Held D) B)
      → ((a : A) → Keeps (f a))
      → (r : Result A × Held D)
      → blocks_of (continue f r).1.card.sectors ≡ blocks_of r.1.card.sectors
  continue-Keeps f keeps (ok a, h) = keeps a h
  continue-Keeps f keeps (threw, h) = refl
  continue-Keeps f keeps (fault, h) = refl

  pub then_Keeps :
      {A B : Type 0} (m : Action (Held D) A) (f : A → Action (Held D) B)
      → Keeps m
      → ((a : A) → Keeps (f a))
      → Keeps (m >>= f)
  then_Keeps m f keeps later h = continue-Keeps f later (m h) ∙ keeps h

  pub if_Keeps :
      {A : Type 0} (b : Bool) (m n : Action (Held D) A)
      → Keeps m
      → Keeps n
      → Keeps (if b then m else n)
  if_Keeps true m n p q = p
  if_Keeps false m n p q = q

  pub in_range-Keeps : {A : Type 0} (o : Option A) → Keeps (in_range o)
  in_range-Keeps none h = refl
  in_range-Keeps (some a) h = refl

  load_key-Keeps : (sector : ℕ) (key : List ℕ) → Keeps (load_key sector key)
  unfolding load_key
  load_key-Keeps sector key h = by_sector (get_elem? h.card.sectors sector) refl
    where
      by_sector :
          (o : Option Sector)
          → get_elem? h.card.sectors sector ≡ o
          → blocks_of (load_key sector key h).1.card.sectors ≡ blocks_of h.card.sectors
      by_sector none e = rw e refl
      by_sector (some s) e =
          rw e (blocks_of-set_same h.card.sectors sector s (set_authentification_key key s) e refl)

module _ {D : Type 0} (nfc : Libnfc D) where
  command-Keeps : (cmd : MifareCmd) (block : ℕ) → Keeps (command nfc cmd block)
  unfolding command mifare_cmd
  command-Keeps cmd block h = refl

  check_present-Keeps : Keeps (check_present nfc)
  unfolding check_present
  check_present-Keeps h =
      then_Keeps (on_env (find_card_uid nfc h.card.target.uid h.card.uid_length)) _ (λ h. refl)
        (λ found. if_Keeps found _ _ (λ h. refl) (λ h. refl)) h

  after_command :
      (accepted : Bool) (block : ℕ)
      → Keeps (
          if accepted
          then (show_debug (codes "Authenticated normaly") >> pure true)
          else (check_present nfc >> pure false))
  after_command true block h = refl
  after_command false block h =
      then_Keeps (check_present nfc) (λ u. pure false) check_present-Keeps (λ u h. refl) h

  auth_round-Keeps : (sector block i : ℕ) → Keeps (auth_round nfc sector block i)
  unfolding auth_round
  auth_round-Keeps sector block i h =
      then_Keeps (in_range (key_at h.card.keys i)) _ (in_range-Keeps (key_at h.card.keys i))
        (λ key. then_Keeps (load_key sector key) _ (load_key-Keeps sector key) (λ key_b.
          then_Keeps (command nfc (auth_cmd key_b) block) _ (command-Keeps (auth_cmd key_b) block)
            (λ accepted. after_command accepted block)))
        h

  auth_loop-Keeps : (fuel sector block i : ℕ) → Keeps (auth_loop nfc fuel sector block i)
  unfolding auth_loop
  auth_loop-Keeps zero sector block i h = refl
  auth_loop-Keeps (suc fuel) sector block i h =
      then_Keeps (auth_round nfc sector block i) _ (auth_round-Keeps sector block i)
        (λ done h.
          if_Keeps done _ _ (λ h. refl)
            (if_Keeps (ltb (i + 6) (length h.card.keys * 6 % 2 ^ 64)) _ _
              (auth_loop-Keeps fuel sector block (i + 6)) (λ h. refl))
            h)
        h

  authenticate-Keeps : (block : ℕ) → Keeps (authenticate nfc block)
  unfolding authenticate
  authenticate-Keeps block h = by_place (calculate_sector block h.card.sectors) refl
    where
      by_place :
          (o : Option (ℕ × ℕ))
          → calculate_sector block h.card.sectors ≡ o
          → blocks_of (authenticate nfc block h).1.card.sectors ≡ blocks_of h.card.sectors
      by_place none e = rw e refl
      by_place (some place) e = rw (authenticate_lem nfc block h e) (
          auth_loop-Keeps (suc (length h.card.keys)) place.0 block 0 (begun block h)
          ∙ unfold begun in refl)

  the_block-Keeps : (sector place : ℕ) → Keeps (the_block {D = D} sector place)
  the_block-Keeps sector place h =
      then_Keeps (in_range (get_elem? h.card.sectors sector))
        (λ (s : Sector). in_range (get_elem? s.blocks place))
        (in_range-Keeps (get_elem? h.card.sectors sector))
        (λ s. in_range-Keeps (get_elem? s.blocks place)) h

  send_block-Keeps : (block : ℕ) (b : Block) → Keeps (send_block nfc block b)
  unfolding send_block
  send_block-Keeps block b h =
      then_Keeps (command nfc MifareCmd.write block)
        (λ accepted. if accepted then pure true else (check_present nfc >> pure false))
        (command-Keeps MifareCmd.write block)
        (λ accepted.
          if_Keeps accepted _ _ (λ h. refl)
            (then_Keeps (check_present nfc) (λ u. pure false) check_present-Keeps (λ u h. refl)))
        (show_debug
          (codes "Trying to write "
            ++ (array_to_string (loaded h).card.param ++ (codes " on block " ++ hex_of block)))
          (loaded h)).1
    where
      loaded : Held D → Held D
      loaded h = record h { card = record h.card { param = write_at 0 b.data_bytes h.card.param } }

  write_data-Keeps : (block : ℕ) → Keeps (write_data nfc block)
  unfolding write_data
  write_data-Keeps block h =
      then_Keeps (in_range (calculate_sector block h.card.sectors)) _
        (in_range-Keeps (calculate_sector block h.card.sectors))
        (λ place.
          then_Keeps (the_block place.0 place.1) _ (the_block-Keeps place.0 place.1)
            (λ b. if_Keeps (is_modified b.state) _ _ (send_block-Keeps block b) (λ h. refl)))
        h

  write_one-Keeps : (block : ℕ) → Keeps (write_one nfc block)
  unfolding write_one
  write_one-Keeps block =
      then_Keeps (authenticate nfc block) _ (authenticate-Keeps block) (λ opened.
        then_Keeps (if opened then write_data nfc block else pure true) _
          (if_Keeps opened _ _ (write_data-Keeps block) (λ h. refl))
          (λ done. if_Keeps done _ _ (λ h. refl) (λ h. refl)))

  write_block-Keeps : (block : ℕ) (i : Block) → Keeps (write_block nfc block i)
  unfolding write_block
  write_block-Keeps block i =
      if_Keeps (is_modified i.state) (write_one nfc block) _ (write_one-Keeps block) (λ h. refl)

  write_blocks-Keeps : (n sector k block : ℕ) → Keeps (write_blocks nfc n sector k block)
  unfolding write_blocks
  write_blocks-Keeps zero sector k block h = refl
  write_blocks-Keeps (suc n) sector k block h =
      then_Keeps (the_block sector k) _ (the_block-Keeps sector k)
        (λ i.
          then_Keeps (write_block nfc block i) (λ u. write_blocks nfc n sector (suc k) (block + 1))
            (write_block-Keeps block i) (λ u. write_blocks-Keeps n sector (suc k) (block + 1)))
        h

  first_block-Keeps : (sector : ℕ) → Keeps (first_block {D = D} sector)
  unfolding first_block
  first_block-Keeps sector h =
      then_Keeps (in_range (calculate_block sector h.card.sectors)) _
        (in_range-Keeps (calculate_block sector h.card.sectors))
        (λ last.
          then_Keeps (the_sector sector) _ (λ h. in_range-Keeps (get_elem? h.card.sectors sector) h)
            (λ s h. refl))
        h

  write_mifare_classic-Keeps : (sector : ℕ) → Keeps (write_mifare_classic nfc sector)
  unfolding write_mifare_classic
  write_mifare_classic-Keeps sector =
      then_Keeps (first_block sector) _ (first_block-Keeps sector) (λ block.
        then_Keeps (the_sector sector) _ (λ h. in_range-Keeps (get_elem? h.card.sectors sector) h)
          (λ s.
            then_Keeps (write_blocks nfc (size s) sector 0 block) (λ u. pure true)
              (write_blocks-Keeps (size s) sector 0 block) (λ u h. refl)))

  -- Writing a sector to the tag changes none of the blocks in memory.
  pub write_sector-Keeps : (sector : ℕ) → Keeps (write_sector nfc sector)
  unfolding write_sector
  write_sector-Keeps sector = write_mifare_classic-Keeps sector
