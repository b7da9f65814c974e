-- ===== src/Caisse/Visit.antt =====
-- A round of the loop of `Caisse::run` (src/caisse.cpp) in which a DEBIT card is laid on the reader and a
-- sum is put on it.
pub mod Recharging
pub mod Taking
use programme_bee_gadz.Common.{
  ℕ, suc, ◌≡◌, ◌≢◌, refl, sym, ap, ◌∙◌, Bool, true, false, not, none, some, Option, List, [], ◌∷◌,
  ◌++◌, arith, Action, Result, ok, threw, handle, continue, ◌>>=◌, ◌>>◌, pure, codes, length, set,
  take, get_elem?, if◌then◌else◌, ◌==◌, same_text, bind_ok, Option-cases, Bool-cases, inl, inr,
  ==_ne, get_elem?-set_self,
}
use mathlib.Core.Path.{subst}
use programme_bee_gadz.Block.{Block, IsBlock, State, memory}
use programme_bee_gadz.Mifare.{Libnfc, Target}
use programme_bee_gadz.Card.Sectors.{read_sector}
use programme_bee_gadz.Card.Tag.{IsMifare, Stands-length}
use programme_bee_gadz.Card.Tag.Fetching.{clean_block}
use programme_bee_gadz.Card.Tag.Reading.{sector_of}
use programme_bee_gadz.Card.Tag.Writing.{pushed}
use programme_bee_gadz.Card.Tag.Fresh.{IsFound, unread_blocks}
use programme_bee_gadz.Config.{get_conso}
use programme_bee_gadz.Mode.{
  c_string, test_card, is_admin, is_sos, is_conso, is_debit, get_credit, has_ticket, get_ticket,
  send_history,
}
use programme_bee_gadz.Mode.Members.{
  FloatUnit, IsFloatUnit, World, Desk, on_card, show_info, the_conso,
}
use programme_bee_gadz.Mode.Reader.{Next, fetch_card, is_held, set_read}
use programme_bee_gadz.Mode.Memory.{Holds}
use programme_bee_gadz.Mode.Kinds.{
  credit_in, credit_block, credit_in-credit_block, get_credit_lem, has_ticket_lem, get_ticket_lem,
  test_card_lem,
}
use programme_bee_gadz.Mode.Aside.{
  Aside, Aside-refl, Aside-trans, Printed, show_info-Printed, history_line, CardStands-Printed,
  on_card-Aside,
}
use programme_bee_gadz.Mode.Laid.{
  ended, credit-IsBlock, is_held-CardStands, fetch_card-CardStands, read_laid,
}
use programme_bee_gadz.Mode.OnTag.{CardStands, CardStands-Holds}
use programme_bee_gadz.Bar.OnTag.{with_credit, store_credit-Aside, store_credit-Stands}
use programme_bee_gadz.Bar.{store_credit}
use programme_bee_gadz.Caisse.{
  increment_credit, show_sum, show_ticket, recharge_with, recharge, by_kind, serve, load, take_card,
  search_card, look_again, caisse_round,
}
use programme_bee_gadz.Caisse.Visit.Recharging.{Adds, IsRecharged, recharge-IsRecharged}
use programme_bee_gadz.Caisse.Visit.Taking.{Waits, IsLaid, round_laid}

module _ {D F : Type 0} (nfc : Libnfc D) (float : FloatUnit F) (world : World F) where
  serve_debit :
      (k : Desk D F) (b0 : Block) (rest : List Block)
      → Holds k (b0 ∷ rest)
      → c_string (memory b0) ≡ codes "DEBIT"
      → serve nfc float world k ≡ continue (λ u. pure Next.again) (recharge nfc float world k)
  unfolding serve by_kind is_admin is_sos is_conso is_debit
  serve_debit k b0 rest holds named =
      let is : (str : List ℕ) → test_card str k ≡ (ok (same_text str (codes "DEBIT")), k) =
        λ str. test_card_lem str k holds refl ∙ ap (λ n. (ok (same_text str n), k)) named in
      rw (is (codes "ADMIN"), is (codes "SOS"), is (codes "CONSO"), is (codes "DEBIT")) refl

-- A DEBIT card is laid on the reader, and a sum is typed that is not zero and not above 250. After that
-- round of the loop of `Caisse::run` the card's tag has the credit with the sum and is the same in every
-- other block, and the database has a line for the sum.
pub sum_is_put_on_card :
    {D F : Type 0} {nfc : Libnfc D} {content : D → ℕ → List ℕ} {opened : D → ℕ → Bool}
    {key : List ℕ} {target : Target} (found : IsFound nfc content target)
    (reader : IsMifare nfc content opened key (take 4 target.uid)) (float : FloatUnit F)
    → IsFloatUnit float
    → (world : World F) (k : Desk D F) {n t : ℕ} → IsLaid key target world k
    → c_string (memory (clean_block (content k.env.device 4))) ≡ codes "DEBIT"
    → get_elem? (content k.env.device 6) 0 ≡ some n
    → get_elem? (content k.env.device 6) 1 ≡ some t
    → Adds float (world.amounts k.entries)
    → ((caisse_round nfc float world k).0 ≡ ok Next.again)
      × (float.of_memory (take 4 (content (caisse_round nfc float world k).1.env.device 5))
          ≡ float.add (world.amounts k.entries) (float.of_memory (take 4 (content k.env.device 5))))
      × ((m : ℕ)
          → m ≢ 5
          → content (caisse_round nfc float world k).1.env.device m ≡ content k.env.device m)
      × ((caisse_round nfc float world k).1.requests
          ≡ history_line float k.config.pianss (codes "DEBIT") (world.amounts k.entries)
            ∷ k.requests)
sum_is_put_on_card {nfc = nfc} {content = content} found reader float unit world k laid named first
      second adds =
    let tag = content k.env.device in
    let blocks = set unread_blocks 1 (sector_of tag 1) in
    let b0 = clean_block (tag 4) in
    let b1 = clean_block (tag 5) in
    let b2 = clean_block (tag 6) in
    let b3 = clean_block (tag 7) in
    let (k', served, v, w) = round_laid found reader float world k laid in
    let whole = credit-IsBlock k' v in
    let same : world.amounts k'.entries ≡ world.amounts k.entries = ap world.amounts w.entries in
    let adds' = subst (Adds float) (sym same) adds in
    let (returns, r) =
      recharge-IsRecharged reader float unit blocks b0 b1 b2 b3 refl (λ e. cc) whole named world k'
        v first second adds' in
    let holds : Holds k' (b0 ∷ b1 ∷ b2 ∷ b3 ∷ []) = CardStands-Holds k' blocks refl v in
    let runs =
      served
      ∙ ap (handle (pure Next.again))
          (serve_debit nfc float world k' b0 (b1 ∷ b2 ∷ b3 ∷ []) holds named)
      ∙ ended (recharge nfc float world k') (inl returns) in
    let (c, there, s) = r.stands in
    rw runs (
      refl,
      ap (λ l. float.of_memory (take 4 l)) (s.on_tag 5)
          ∙ credit_in-credit_block float unit
              (float.add (world.amounts k'.entries) (credit_in float b1)) b1 whole
          ∙ ap (λ x. float.add x (credit_in float b1)) same,
      λ m other. s.on_tag m ∙ rw (==_ne m 5 other) refl,
      r.requests
          ∙ ap (λ x. history_line float k'.config.pianss (codes "DEBIT") x ∷ k'.requests) same
          ∙ ap
              (λ c.
                history_line float c.pianss (codes "DEBIT") (world.amounts k.entries) ∷ k'.requests)
              w.config
          ∙ ap
              (λ l.
                history_line float k.config.pianss (codes "DEBIT") (world.amounts k.entries) ∷ l)
              w.requests,
    )
