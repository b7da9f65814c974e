-- ===== src/Bar/Visit.antt =====
-- A round of the loop of `Bar::run` (src/bar.cpp) in which a card is laid on the reader: a CONSO card
-- orders a drink, and a DEBIT card pays the orders.
pub mod Paying
pub mod Reading
pub mod Taking
pub mod Paid
pub mod Dropping
pub mod Dropped
pub mod Seen
pub mod Ordered
pub mod Both
use programme_bee_gadz.Common.{
  ℕ, ◌+◌, ◌<◌, ◌≡◌, ◌≢◌, ◌⊎◌, refl, sym, ap, ◌∙◌, Bool, true, false, not, none, some, List, [], ◌∷◌,
  arith, Result, ok, threw, fault, Option-cases, inl, inr, ==_ne, handle, continue, pure, codes,
  length, set, take, get_elem?, write_at, if◌then◌else◌, ◌==◌, same_text,
}
use mathlib.Core.Path.{subst}
use programme_bee_gadz.Block.{Block, IsBlock, State, memory}
use programme_bee_gadz.Mifare.{Libnfc, Target}
use programme_bee_gadz.Card.Tag.{IsMifare, the_sector_of}
use programme_bee_gadz.Card.Tag.Fetching.{clean_block}
use programme_bee_gadz.Card.Tag.Reading.{sector_of}
use programme_bee_gadz.Card.Tag.Fresh.{IsFound, unread_blocks}
use programme_bee_gadz.Mode.{c_string, test_card, is_admin, is_sos, is_conso, is_debit}
use programme_bee_gadz.Mode.Members.{FloatUnit, IsFloatUnit, World, Desk}
use programme_bee_gadz.Mode.Reader.{Next}
use programme_bee_gadz.Mode.Memory.{Holds}
use programme_bee_gadz.Mode.Kinds.{test_card_lem}
use programme_bee_gadz.Mode.Laid.{IsFree}
use programme_bee_gadz.Mode.OnTag.{CardStands, CardStands-Holds}
use programme_bee_gadz.Bar.{Orders, counts, is_empty, BarRun, price_from, get_price, pay}
use programme_bee_gadz.Config.{get_conso}
use programme_bee_gadz.Bar.Round.{order, by_kind, serve, bar_round}
use programme_bee_gadz.Bar.Visit.Paying.{Pays, receipts, pay-IsPaid}
use programme_bee_gadz.Bar.Visit.Taking.{Calm, round_laid}

module _ {D F : Type 0} (nfc : Libnfc D) (float : FloatUnit F) (world : World F) (timer : ℕ)
    (b : BarRun D F) (b0 : Block) (rest : List Block) (holds : Holds b.desk (b0 ∷ rest)) where
  pub test_as :
      (name : List ℕ)
      → c_string (memory b0) ≡ name
      → (str : List ℕ) → test_card str b.desk ≡ (ok (same_text str name), b.desk)
  test_as name named str =
      test_card_lem str b.desk holds refl ∙ ap (λ n. (ok (same_text str n), b.desk)) named

  -- A DEBIT card pays, where there are orders.
  pub serve_debit :
      c_string (memory b0) ≡ codes "DEBIT"
      → is_empty b.conso ≡ false
      → serve nfc float world timer b ≡ continue (λ u. pure Next.again) (pay nfc float timer b)
  unfolding serve by_kind is_admin is_sos is_conso is_debit
  serve_debit named some_there =
      let is = test_as (codes "DEBIT") named in
      rw (is (codes "ADMIN"), is (codes "SOS"), is (codes "DEBIT"), is (codes "CONSO"), some_there)
        refl

  -- A CONSO card orders.
  pub serve_conso :
      c_string (memory b0) ≡ codes "CONSO"
      → serve nfc float world timer b ≡ continue (λ u. pure Next.again) (order timer b)
  unfolding serve by_kind is_admin is_sos is_conso is_debit
  serve_conso named =
      let is = test_as (codes "CONSO") named in
      rw (is (codes "ADMIN"), is (codes "SOS"), is (codes "DEBIT"), is (codes "CONSO")) refl

-- A tag of a type that the program knows is laid on the reader, where no card was or a CONSO card,
-- while the orders stay; the configuration has the tag's key.
pub record IsLaid {D F : Type 0} (nfc : Libnfc D) (content : D → ℕ → List ℕ) (key : List ℕ)
    (target : Target) (world : World F) (b : BarRun D F) : Type 0 where
  pub known : target.atqa_low ≡ 4
  pub four : length (take 4 target.uid) ≡ 4
  pub raw : length world.raw ≡ 16
  pub free : IsFree nfc content b.desk
  pub keys : b.desk.config.key ≡ key
  pub six : length key ≡ 6
  pub calm : Calm world b
