-- ===== src/Mode/Members.antt =====
-- What the modes share (include/mode.h): the members of `class Mode`, the card that a `run` holds,
-- and the world around the program: the clock, the keys that are pressed, the sums that are typed.
use programme_bee_gadz.Common.{
  ℕ, suc, Bool, Option, none, some, List, ◌∷◌, Action, ok, fault, ◌>>=◌, pure, throw, gets, modify,
  length, ◌≡◌,
}
use programme_bee_gadz.Printer.{print_info, print_error, print_debug}
use programme_bee_gadz.Mifare.{MifareParam}
use programme_bee_gadz.NfcDevice.{Env}
use programme_bee_gadz.Card.State.{Card, Held}
use programme_bee_gadz.Config.{Config, get_conso}

-- `float`: the processor's arithmetic, its bytes, and its texts.
pub record FloatUnit (F : Type 0) : Type 0 where
  -- `0.0f`
  pub zero_float : F
  pub add : F → F → F
  pub subtract : F → F → F
  -- the product with a `size_t`
  pub times : F → ℕ → F
  -- `x >= y`
  pub at_least : F → F → Bool
  -- `!x`
  pub is_zero : F → Bool
  -- `x > n`
  pub exceeds : F → ℕ → Bool
  -- the four bytes in memory, and the float that they are
  pub to_memory : F → List ℕ
  pub of_memory : List ℕ → F
  -- `stream << x`, `std::to_string(x)`
  pub shown : F → List ℕ
  pub fixed : F → List ℕ

-- A `float` has four bytes, which determine it.
pub record IsFloatUnit {F : Type 0} (float : FloatUnit F) : Type 0 where
  pub four_bytes : (x : F) → length (float.to_memory x) ≡ 4
  pub of_to_memory : (x : F) → float.of_memory (float.to_memory x) ≡ x

-- `class Line`; `m_printed` is -1 as long as the line has not been printed.
pub record Line : Type 0 where
  pub message : List ℕ
  pub time : ℕ
  pub printed : Option ℕ

-- What each call from outside returns, by the number of calls before it.
pub record World (F : Type 0) : Type 0 where
  -- `std::time(nullptr)`
  pub times : ℕ → ℕ
  -- `getKeyPressedNB()`; `none` is `ERR`
  pub keys : ℕ → Option ℕ
  -- `getKeyPressed()`, which waits for a key
  pub choices : ℕ → ℕ
  -- `getFloat()`
  pub amounts : ℕ → F
  -- what the memory of a new card's `m_param` holds
  pub raw : MifareParam

pub record Desk (D F : Type 0) : Type 0 where
  pub env : Env D
  -- `*m_config`
  pub config : Config F
  -- `m_screen`: four queues, their front first
  pub screen : List (List Line)
  -- the calls of `m_sql`, latest first
  pub requests : List (List ℕ)
  -- `card` and `read` of `run`
  pub card : Option Card
  pub read : Bool
  -- the numbers of calls to the world so far
  pub ticks : ℕ
  pub strokes : ℕ
  pub picks : ℕ
  pub entries : ℕ

module _ {D F : Type 0} where
  -- A call on the reader or the printer.
  abbrev pub on_env : {A : Type 0} → Action (Env D) A → Action (Desk D F) A
  on_env m k = let (r, e) = m k.env in (r, record k { env = e })

  abbrev pub put_held : Desk D F → Held D → Desk D F
  put_held k h = record k { env = h.env; card = some h.card }

  -- `*card`, of a null pointer a fault
  abbrev pub with_card : {A : Type 0} → Option Card → Action (Held D) A → Action (Desk D F) A
  with_card none m k = (fault, k)
  with_card (some c) m k = let (r, h) = m (record { card = c; env = k.env }) in (r, put_held k h)

  -- A call on the card that `run` holds.
  abbrev pub on_card : {A : Type 0} → Action (Held D) A → Action (Desk D F) A
  on_card m k = with_card k.card m k

  -- `m_printer->printInfo(…)` and its siblings
  abbrev pub show_info : List ℕ → Action (Desk D F) (Unit {0})
  show_info m = on_env (modify λ e. record e { printer = print_info m e.printer })

  abbrev pub show_error : List ℕ → Action (Desk D F) (Unit {0})
  show_error m = on_env (modify λ e. record e { printer = print_error m e.printer })

  abbrev pub show_debug : List ℕ → Action (Desk D F) (Unit {0})
  show_debug m = on_env (modify λ e. record e { printer = print_debug m e.printer })

  -- `m_sql(…)`
  abbrev pub request : List ℕ → Action (Desk D F) (Unit {0})
  request text = modify λ k. record k { requests = text ∷ k.requests }

  abbrev pub or_throw : {A : Type 0} → Option A → Action (Desk D F) A
  or_throw none = throw
  or_throw (some a) = pure a

  -- `m_config->getConso(nb)`
  abbrev pub the_conso : ℕ → Action (Desk D F) (List ℕ × F)
  the_conso nb = do c ← gets (λ k. k.config); or_throw (get_conso nb c)

module _ {D F : Type 0} (world : World F) where
  -- `std::time(nullptr)`
  abbrev pub clock : Action (Desk D F) ℕ
  clock k = (ok (world.times k.ticks), record k { ticks = suc k.ticks })

  -- `m_printer->getKeyPressedNB()`
  abbrev pub key_pressed : Action (Desk D F) (Option ℕ)
  key_pressed k = (ok (world.keys k.strokes), record k { strokes = suc k.strokes })

  -- `m_printer->getKeyPressed()`
  abbrev pub chosen : Action (Desk D F) ℕ
  chosen k = (ok (world.choices k.picks), record k { picks = suc k.picks })

  -- `m_printer->getFloat()`
  abbrev pub entered : Action (Desk D F) F
  entered k = (ok (world.amounts k.entries), record k { entries = suc k.entries })
