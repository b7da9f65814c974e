-- ===== src/Card/Commands.antt =====
-- The commands of `class Card` on the tag: `authenticate`, `readData`, `writeData`, and the sector
-- and card operations over them (src/card.cpp).
use programme_bee_gadz.Common.{
  ℕ, zero, suc, ◌+◌, ◌*◌, ◌%◌, ◌^◌, Bool, true, false, Option, none, some, List, ◌++◌, Action, ok,
  ◌>>=◌, ◌>>◌, pure, throw, gets, modify, in_range, codes, if◌then◌else◌, set, get_elem?, take,
  drop, length, leb, ltb, write_at,
}
use programme_bee_gadz.Block.{Block, State, is_modified}
use programme_bee_gadz.Sector.{set_authentification_key}
use programme_bee_gadz.Printer.{array_to_string}
use programme_bee_gadz.Printer.Numerals.{hex_of}
use programme_bee_gadz.Mifare.{Libnfc, MifareCmd}
use programme_bee_gadz.NfcDevice.{debug, error, mifare_cmd, find_card_uid}
use programme_bee_gadz.Card.Layout.{calculate_sector}
use programme_bee_gadz.Card.State.{Held, uid_of, on_env, set_param, the_sector, put_sector}

-- The six bytes from `&m_keys[i]`, which must be there.
abbrev pub key_at : List ℕ → ℕ → Option (List ℕ)
key_at keys i = if leb (i + 6) (length keys) then some (take 6 (drop i keys)) else none

abbrev pub auth_cmd : Bool → MifareCmd
auth_cmd key_b = if key_b then MifareCmd.auth_b else MifareCmd.auth_a

module _ {D : Type 0} where
  abbrev pub show_debug : List ℕ → Action (Held D) (Unit {0})
  show_debug m = on_env (debug m)

  abbrev pub show_error : List ℕ → Action (Held D) (Unit {0})
  show_error m = on_env (error m)

  -- `std::memcpy(m_param.mpa.abtAuthUid, getUid(), m_uidLen)`
  abbrev pub load_uid : Action (Held D) (Unit {0})
  load_uid =
      modify
        λ h. record h { card = record h.card { param = write_at 6 (uid_of h.card) h.card.param } }

  -- `m_data[sector][place]`, which must be there
  abbrev pub the_block : ℕ → ℕ → Action (Held D) Block
  the_block sector place = do s ← the_sector sector; in_range (get_elem? s.blocks place)

  -- `m_data[sector][place] = b`
  abbrev pub put_block : ℕ → ℕ → Block → Action (Held D) (Unit {0})
  put_block sector place b = do
    s ← the_sector sector
    put_sector sector (record s { blocks = set s.blocks place b })

  -- `m_data[sector]` is given the key, which goes into `m_param.mpa.abtKey`.
  unfoldable pub load_key : ℕ → List ℕ → Action (Held D) Bool
  load_key sector key = do
    s ← the_sector sector
    let s' = set_authentification_key key s
    put_sector sector s'
    modify
        (λ h. record h { card = record h.card { param = write_at 0 (take 6 s'.key) h.card.param } })
    show_debug (
        codes "Trying with key "
        ++ (array_to_string (take 6 s'.key)
            ++ (codes " on key " ++ codes (if s'.key_b then "B" else "A"))))
    pure s'.key_b

module _ {D : Type 0} (nfc : Libnfc D) where
  -- `device->mifareCmd(cmd, block, &m_param)`
  unfoldable pub command : MifareCmd → ℕ → Action (Held D) Bool
  command cmd block = do
    p ← gets (λ h. h.card.param)
    answer ← on_env (mifare_cmd nfc cmd block p)
    set_param answer.1
    pure answer.0

  -- `if (!device->findCard(getUid(), m_uidLen)) throw …`
  unfoldable pub check_present : Action (Held D) (Unit {0})
  check_present = do
    c ← gets (λ h. h.card)
    found ← on_env (find_card_uid nfc c.target.uid c.uid_length)
    if found then pure tt else (show_error (codes "The tag was removed !") >> throw)

  -- One round of `authenticate`, up to `i += 6`.
  unfoldable pub auth_round : ℕ → ℕ → ℕ → Action (Held D) Bool
  auth_round sector block i = do
    keys ← gets (λ h. h.card.keys)
    key ← in_range (key_at keys i)
    key_b ← load_key sector key
    accepted ← command (auth_cmd key_b) block
    if accepted
        then (show_debug (codes "Authenticated normaly") >> pure true)
        else (check_present >> pure false)

  -- `do … while (i < m_keys.size() * 6)`, with fuel for the rounds, and what follows it. Round `j`
  -- reads the key at `6 * j`, so the loop ends before the fuel `m_keys.size() + 1` is spent; what is
  -- given where it is spent is neither an acceptance, a throw nor a read past the end.
  unfoldable pub auth_loop : ℕ → ℕ → ℕ → ℕ → Action (Held D) Bool
  auth_loop zero sector block i h = (ok false, h)
  auth_loop (suc fuel) sector block i h =
      (do
        done ← auth_round sector block i
        n ← gets (λ h. length h.card.keys)
        if done
            then pure true
            else if ltb (i + 6) (n * 6 % 2 ^ 64)
            then auth_loop fuel sector block (i + 6)
            else (show_error (codes "Error while trying to authenticate block " ++ hex_of block)
                >> pure false))
        h

  -- `Card::authenticate`
  unfoldable pub authenticate : ℕ → Action (Held D) Bool
  authenticate block = do
    load_uid
    c ← gets (λ h. h.card)
    show_debug (
        codes "Trying to authenticate block "
        ++ (hex_of block ++ (codes " on card " ++ array_to_string (uid_of c))))
    place ← in_range (calculate_sector block c.sectors)
    auth_loop (suc (length c.keys)) place.0 block 0

  -- `m_data[sector][tmp]` takes the 16 bytes of `m_param.mpd.abtData` and is clean.
  unfoldable pub fill_block : ℕ → ℕ → Action (Held D) (Unit {0})
  fill_block sector place = do
    b ← the_block sector place
    p ← gets (λ h. h.card.param)
    put_block sector place (record {
      data_bytes = write_at 0 (take (length b.data_bytes) p) b.data_bytes;
      state = State.clean;
    })

  -- `Card::readData`
  unfoldable pub read_data : ℕ → Action (Held D) Bool
  read_data block = do
    sectors ← gets (λ h. h.card.sectors)
    place ← in_range (calculate_sector block sectors)
    load_uid
    accepted ← command MifareCmd.read block
    if accepted
        then (fill_block place.0 place.1 >> pure true)
        else (check_present
            >> (show_error (codes "Error while reading block " ++ hex_of block) >> pure false))

  -- `Card::writeData`, for a block that is modified
  unfoldable pub send_block : ℕ → Block → Action (Held D) Bool
  send_block block b = do
    modify (λ h. record h { card = record h.card { param = write_at 0 b.data_bytes h.card.param } })
    p ← gets (λ h. h.card.param)
    show_debug
        (codes "Trying to write " ++ (array_to_string p ++ (codes " on block " ++ hex_of block)))
    accepted ← command MifareCmd.write block
    if accepted then pure true else (check_present >> pure false)

  -- `Card::writeData`
  unfoldable pub write_data : ℕ → Action (Held D) Bool
  write_data block = do
    sectors ← gets (λ h. h.card.sectors)
    place ← in_range (calculate_sector block sectors)
    b ← the_block place.0 place.1
    if is_modified b.state then send_block block b else pure true
