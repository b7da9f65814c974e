-- ===== src/Kve/Visit.antt =====
-- A round of the loop of `Kve::run` (src/kve.cpp) in which a DEBIT card is laid on the reader and a price
-- is paid with it.
pub mod Paying
pub mod Taking
pub mod Seen
use programme_bee_gadz.Common.{
  ℕ, suc, ◌&&◌, ◌⊎◌, ◌≡◌, ◌≢◌, refl, sym, ap, ◌∙◌, Bool, true, false, not, none, some, Option, List,
  [], ◌∷◌, ◌++◌, arith, Action, Result, ok, threw, handle, continue, ◌>>=◌, ◌>>◌, pure, codes,
  length, set, take, get_elem?, if◌then◌else◌, ◌==◌, same_text, bind_ok, Option-cases, Bool-cases,
  inl, inr, ==_ne, get_elem?-set_self,
}
use mathlib.Core.Path.{subst}
use programme_bee_gadz.Block.{Block, IsBlock, State, memory}
use programme_bee_gadz.Mifare.{Libnfc, Target}
use programme_bee_gadz.Card.Sectors.{read_sector}
use programme_bee_gadz.Card.Tag.{IsMifare, Stands-length}
use programme_bee_gadz.Card.Tag.Fetching.{clean_block}
use programme_bee_gadz.Card.Tag.Reading.{sector_of}
use programme_bee_gadz.Card.Tag.Writing.{pushed}
use programme_bee_gadz.Card.Tag.Fresh.{IsFound, unread_blocks}
use programme_bee_gadz.Config.{get_conso}
use programme_bee_gadz.Mode.{
  c_string, test_card, is_admin, is_sos, is_conso, is_debit, get_credit, has_ticket, get_ticket,
  send_history,
}
use programme_bee_gadz.Mode.Members.{FloatUnit, IsFloatUnit, World, Desk, on_card, show_info}
use programme_bee_gadz.Mode.Reader.{Next, fetch_card, is_held, set_read}
use programme_bee_gadz.Mode.Memory.{Holds}
use programme_bee_gadz.Mode.Kinds.{
  credit_in, credit_block, credit_in-credit_block, get_credit_lem, has_ticket_lem, get_ticket_lem,
  test_card_lem,
}
use programme_bee_gadz.Mode.Aside.{
  Aside, Aside-refl, Aside-trans, Printed, show_info-Printed, history_line, CardStands-Printed,
  on_card-Aside,
}
use programme_bee_gadz.Mode.Laid.{
  ended, credit-IsBlock, is_held-CardStands, fetch_card-CardStands, read_laid,
}
use programme_bee_gadz.Mode.OnTag.{CardStands, CardStands-Holds}
use programme_bee_gadz.Bar.Visit.Paying.{Pays}
use programme_bee_gadz.Kve.{
  KveRun, on_desk, is_key, by_key, pay_price, by_kind, serve, load, take_card, search_card,
  look_again, attend, kve_round, say,
}
use programme_bee_gadz.Kve.Visit.Paying.{CallsOff, by_key-CallsOff, IsPaid, pay_price-IsPaid}
use programme_bee_gadz.Kve.Visit.Taking.{IsLaid, round_laid}

module _ {D F : Type 0} (nfc : Libnfc D) (float : FloatUnit F) (world : World F) where
  -- A DEBIT card pays a price, where no ticket is asked for or it has none.
  serve_debit :
      (r : KveRun D F) (b0 b1 b2 : Block) (rest : List Block) {n : ℕ}
      → Holds r.desk (b0 ∷ b1 ∷ b2 ∷ rest)
      → c_string (memory b0) ≡ codes "DEBIT"
      → get_elem? b2.data_bytes 0 ≡ some n
      → (r.ticket && not (n == 0)) ≡ false
      → serve nfc float world r ≡ continue (λ u. pure Next.again) (pay_price nfc float world r)
  unfolding serve by_kind is_admin is_sos is_conso is_debit
  serve_debit r b0 b1 b2 rest holds named first without =
      let is : (str : List ℕ)
          → test_card str r.desk ≡ (ok (same_text str (codes "DEBIT")), r.desk) =
        λ str.
          test_card_lem str r.desk holds refl ∙ ap (λ n. (ok (same_text str n), r.desk)) named in
      let has = has_ticket_lem r.desk b0 b1 b2 rest holds named first in
      rw
        (is (codes "ADMIN"), is (codes "SOS"), is (codes "CONSO"), is (codes "DEBIT"), has, without)
        refl

no_ticket_used :
    (ticket ticket' : Bool) (n : ℕ)
    → (ticket ≡ false) ⊎ (n ≡ 0)
    → (ticket' ≡ ticket) ⊎ (ticket' ≡ false)
    → (ticket' && not (n == 0)) ≡ false
no_ticket_used ticket true n (inl e) (inl same) = cc
no_ticket_used ticket true n (inr e) h = rw e refl
no_ticket_used ticket true n (inl e) (inr gone) = cc
no_ticket_used ticket false n e h = refl

-- A DEBIT card is laid on the reader, no ticket is asked for or the card has none, and a price is typed;
-- the credit of the card is at least the price and not zero. After that round of the loop of `Kve::run`
-- the card's tag has the credit less the price and is the same in every other block, no ticket is asked
-- for, and the database has a line for the price.
pub price_is_paid :
    {D F : Type 0} {nfc : Libnfc D} {content : D → ℕ → List ℕ} {opened : D → ℕ → Bool}
    {key : List ℕ} {target : Target} (found : IsFound nfc content target)
    (reader : IsMifare nfc content opened key (take 4 target.uid)) (float : FloatUnit F)
    → IsFloatUnit float
    → (world : World F) (r : KveRun D F) {n : ℕ} → IsLaid key target world r
    → c_string (memory (clean_block (content r.desk.env.device 4))) ≡ codes "DEBIT"
    → get_elem? (content r.desk.env.device 6) 0 ≡ some n
    → (r.ticket ≡ false) ⊎ (n ≡ 0)
    → Pays float
        (float.of_memory (take 4 (content r.desk.env.device 5)))
        (world.amounts r.desk.entries)
    → ((kve_round nfc float world r).0 ≡ ok Next.again)
      × ((kve_round nfc float world r).1.ticket ≡ false)
      × (float.of_memory (take 4 (content (kve_round nfc float world r).1.desk.env.device 5))
          ≡ float.subtract
              (float.of_memory (take 4 (content r.desk.env.device 5)))
              (world.amounts r.desk.entries))
      × ((m : ℕ)
          → m ≢ 5
          → content (kve_round nfc float world r).1.desk.env.device m ≡ content r.desk.env.device m)
      × ((kve_round nfc float world r).1.desk.requests
          ≡ history_line float r.desk.config.pianss (codes "KVE") (world.amounts r.desk.entries)
            ∷ r.desk.requests)
price_is_paid {F = F} {nfc = nfc} {content = content} found reader float unit world r {n} laid named
      first without pays =
    let tag = content r.desk.env.device in
    let blocks = set unread_blocks 1 (sector_of tag 1) in
    let b0 = clean_block (tag 4) in
    let b1 = clean_block (tag 5) in
    let b2 = clean_block (tag 6) in
    let b3 = clean_block (tag 7) in
    let (r', served, v, config, requests, entries, ticket) =
      round_laid found reader float world r laid in
    let whole = credit-IsBlock r'.desk v in
    let credit = credit_in float b1 in
    let same : world.amounts r'.desk.entries ≡ world.amounts r.desk.entries =
      ap world.amounts entries in
    let pays' = subst (Pays float credit) (sym same) pays in
    let (returns, called_off, p) =
      pay_price-IsPaid reader float unit blocks b0 b1 b2 b3 refl (λ e. cc) whole named world r' v
        pays' in
    let holds : Holds r'.desk (b0 ∷ b1 ∷ b2 ∷ b3 ∷ []) = CardStands-Holds r'.desk blocks refl v in
    let runs =
      served
      ∙ ap (handle (pure Next.again)) (
          serve_debit nfc float world r' b0 b1 b2 (b3 ∷ []) holds named first
            (no_ticket_used r.ticket r'.ticket n without ticket))
      ∙ ended (pay_price nfc float world r') (inl returns) in
    let (c, there, s) = p.stands in
    let line = λ (pianss : List ℕ) (price : F) (old : List (List ℕ)).
      (history_line float pianss (codes "KVE") price ∷ old) in
    rw runs (
      refl,
      called_off,
      ap (λ l. float.of_memory (take 4 l)) (s.on_tag 5)
          ∙ credit_in-credit_block float unit
              (float.subtract credit (world.amounts r'.desk.entries)) b1 whole
          ∙ ap (float.subtract credit) same,
      λ m other. s.on_tag m ∙ rw (==_ne m 5 other) refl,
      p.requests
          ∙ ap (λ x. line r'.desk.config.pianss x r'.desk.requests) same
          ∙ ap (λ c. line c.pianss (world.amounts r.desk.entries) r'.desk.requests) config
          ∙ ap (line r.desk.config.pianss (world.amounts r.desk.entries)) requests,
    )
