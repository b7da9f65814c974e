-- ===== src/Card/State.antt =====
-- The object and the environment that it works in (include/card.h).
use programme_bee_gadz.Common.{
  ℕ, zero, suc, ◌==◌, Bool, true, false, not, List, [], ◌∷◌, Action, ◌>>◌, pure, throw, modify,
  in_range, codes, if◌then◌else◌, set, get_elem?, take, drop, get_or, write_at,
}
use programme_bee_gadz.Sector.{Sector, new_sector, set_trailer}
use programme_bee_gadz.Mifare.{Target, MifareParam}
use programme_bee_gadz.NfcDevice.{Env, debug, error}

-- `m_type` has one value, `Card::MifareClassic`; `m_print` and `m_device` point to the environment.
pub record Card : Type 0 where
  -- `m_keys`
  pub keys : List ℕ
  -- `m_target`
  pub target : Target
  -- `m_param`
  pub param : MifareParam
  -- `m_data`
  pub sectors : List Sector
  -- `m_uidLen`
  pub uid_length : ℕ

-- `getUid()` up to `m_uidLen`
abbrev pub uid_of : Card → List ℕ
uid_of c = take c.uid_length c.target.uid

-- `for (size_t i = 0; i < n; ++i) if (x[i] != y[i]) return false;`
abbrev pub same_prefix : ℕ → List ℕ → List ℕ → Bool
same_prefix zero x y = true
same_prefix (suc n) x y =
    if get_or x 0 0 == get_or y 0 0 then same_prefix n (drop 1 x) (drop 1 y) else false

-- `m_data.resize(16, Sector(false, 4))`
abbrev pub resize : ℕ → Sector → List Sector → List Sector
resize zero x sectors = []
resize (suc n) x [] = x ∷ resize n x []
resize (suc n) x (s ∷ sectors) = s ∷ resize n x sectors

-- `m_data[0].setTrailer(true)`
abbrev pub mark_first : List Sector → List Sector
mark_first [] = []
mark_first (s ∷ sectors) = set_trailer true s ∷ sectors

-- The card of a Mifare Classic tag, from the sectors and the `m_param` that the object had.
abbrev pub classic_card : List ℕ → Target → List Sector → MifareParam → Card
classic_card keys target sectors param = record {
  keys = keys;
  target = target;
  param = write_at 6 (take 4 target.uid) param;
  sectors = mark_first (resize 16 (new_sector false 4 false) sectors);
  uid_length = 4;
}

-- The `switch` that the two constructors and the assignment share: it is a Mifare Classic card, or
-- an exception.
unfoldable pub recognise : {D : Type 0} → Target → Action (Env D) (Unit {0})
recognise target =
    if target.atqa_low == 4
    then debug (codes "Reconized a Mifare Classic card")
    else (error (codes "Not a reconized card !") >> throw)

-- `Card::Card(void *, Printer *, nfc_target, const std::vector<uint8_t> &)`; `raw` is what the
-- memory of `m_param` held.
unfoldable pub new_card : {D : Type 0} → List ℕ → Target → MifareParam → Action (Env D) Card
new_card keys target raw = recognise target >> pure (classic_card keys target [] raw)

-- `Card::Card(const Card &)`: the sectors are not copied.
unfoldable pub copy_card : {D : Type 0} → Card → MifareParam → Action (Env D) Card
copy_card other raw = recognise other.target >> pure (classic_card other.keys other.target [] raw)

-- A card in use, with its environment.
pub record Held (D : Type 0) : Type 0 where
  pub card : Card
  pub env : Env D

module _ {D : Type 0} where
  -- A call that reaches only the environment.
  abbrev pub on_env : {A : Type 0} → Action (Env D) A → Action (Held D) A
  on_env m h = let (r, e) = m h.env in (r, record h { env = e })

  abbrev pub set_param : MifareParam → Action (Held D) (Unit {0})
  set_param p = modify λ h. record h { card = record h.card { param = p } }

  -- `m_data[sector]`, which must be there
  abbrev pub the_sector : ℕ → Action (Held D) Sector
  the_sector k h = in_range (get_elem? h.card.sectors k) h

  -- `m_data[sector] = s`
  abbrev pub put_sector : ℕ → Sector → Action (Held D) (Unit {0})
  put_sector k s =
      modify λ h. record h { card = record h.card { sectors = set h.card.sectors k s } }

-- `Card::operator=`: the sectors of the target of the assignment stay.
unfoldable pub assign_card : {D : Type 0} → Card → Action (Held D) (Unit {0})
assign_card other = do
  modify (λ h. record h { card = record h.card { keys = other.keys; target = other.target } })
  on_env (recognise other.target)
  modify (λ h. record h { card = classic_card other.keys other.target h.card.sectors h.card.param })

-- `Card::operator==`: the first `m_uidLen` bytes of the two UIDs agree.
unfoldable pub same_card : Card → Card → Bool
same_card this other = same_prefix this.uid_length this.target.uid other.target.uid

-- `Card::operator!=`
abbrev pub other_card : Card → Card → Bool
other_card this other = not (same_card this other)

-- `Card::sizeUid`
abbrev pub size_uid : Card → ℕ
size_uid this = this.uid_length
