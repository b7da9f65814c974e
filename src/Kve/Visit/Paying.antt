-- ===== src/Kve/Visit/Paying.antt =====
-- A price that is typed and paid with a DEBIT card that stands beside its tag (the DEBIT branch of
-- `Kve::run`, src/kve.cpp).
use programme_bee_gadz.Common.{
  ℕ, suc, ◌+◌, ◌≡◌, ◌≢◌, ◌⊎◌, refl, ap, ◌∙◌, Bool, true, false, ◌&&◌, some, Option, List, [], ◌∷◌,
  ok, Result, ◌>>◌, pure, leb, codes, set, get_elem?, if◌then◌else◌, Bool-cases, inl, inr,
}
use programme_bee_gadz.Block.{Block, IsBlock, State, memory}
use programme_bee_gadz.Mifare.{Libnfc}
use programme_bee_gadz.Card.Tag.{IsMifare}
use programme_bee_gadz.Card.Tag.Writing.{pushed}
use programme_bee_gadz.Mode.{c_string, send_history}
use programme_bee_gadz.Mode.Members.{FloatUnit, IsFloatUnit, World, Desk, show_info}
use programme_bee_gadz.Mode.Kinds.{credit_in, get_credit_lem}
use programme_bee_gadz.Mode.Aside.{
  Aside-trans, Printed, Printed-refl, show_info-Printed, history_line, CardStands-Printed,
}
use programme_bee_gadz.Mode.OnTag.{CardStands, CardStands-Holds}
use programme_bee_gadz.Bar.{store_credit, decrement_credit}
use programme_bee_gadz.Bar.OnTag.{with_credit, store_credit-Aside, store_credit-Stands}
use programme_bee_gadz.Bar.Visit.Paying.{Pays}
use programme_bee_gadz.Kve.{KveRun, say, set_ticket, call_off, is_key, by_key, settle, pay_price}

-- The call returns and only shows messages, and a ticket is asked for afterwards only if it was before.
pub record CallsOff {D F : Type 0} (r r' : KveRun D F) : Type 0 where
  pub printed : Printed r.desk r'.desk
  pub ticket : (r'.ticket ≡ r.ticket) ⊎ (r'.ticket ≡ false)

module _ {D F : Type 0} where
  abbrev dropped : Bool → KveRun D F → Result (Unit {0}) × KveRun D F
  dropped now = if now then (set_ticket false >> say (codes "Ticket annulé.")) else pure tt

  dropped-CallsOff :
      (now : Bool) (r : KveRun D F) → ((dropped now r).0 ≡ ok tt) × CallsOff r (dropped now r).1
  dropped-CallsOff true r = (
    refl,
    record { printed = show_info-Printed (codes "Ticket annulé.") r.desk; ticket = inr refl },
  )
  dropped-CallsOff false r = (refl, record { printed = Printed-refl r.desk; ticket = inl refl })

  dropped_none : (now : Bool) (r : KveRun D F) → r.ticket ≡ now → (dropped now r).1.ticket ≡ false
  dropped_none true r e = refl
  dropped_none false r e = e

  call_off-CallsOff :
      (test : Bool) (r : KveRun D F)
      → ((call_off test r).0 ≡ ok tt) × CallsOff r (call_off test r).1
  unfolding call_off
  call_off-CallsOff test r = dropped-CallsOff (test && r.ticket) r

  call_off_none : (r : KveRun D F) → (call_off true r).1.ticket ≡ false
  unfolding call_off
  call_off_none r = dropped_none r.ticket r refl

  CallsOff-trans : {r r' r'' : KveRun D F} → CallsOff r r' → CallsOff r' r'' → CallsOff r r''
  CallsOff-trans v w = record {
    printed = record {
      aside = Aside-trans v.printed.aside w.printed.aside;
      card = w.printed.card ∙ v.printed.card;
      device = w.printed.device ∙ v.printed.device;
    };
    ticket = elim w.ticket [
      | inl same ↦ elim v.ticket [ inl e ↦ inl (same ∙ e) | inr e ↦ inr (same ∙ e) ]
      | inr none_left ↦ inr none_left
    ];
  }

  -- The keys and the ten seconds ask for no ticket, where the key is not `0`.
  pub by_key-CallsOff :
      (timer : ℕ) (key : Option ℕ) (r : KveRun D F)
      → is_key b'0' key ≡ false
      → ((by_key timer key r).0 ≡ ok tt) × CallsOff r (by_key timer key r).1
  unfolding by_key
  by_key-CallsOff timer key r other =
      let (done, v) = call_off-CallsOff (is_key b'-' key) r in
      let r1 = (call_off (is_key b'-' key) r).1 in
      let (done', w) = call_off-CallsOff (leb (r1.time + 10) timer) r1 in
      rw (done, done', other) (refl, CallsOff-trans v w)

  -- The keys and the ten seconds leave the card and the reader alone.
  pub by_key-Printed :
      (timer : ℕ) (key : Option ℕ) (r : KveRun D F)
      → ((by_key timer key r).0 ≡ ok tt) × Printed r.desk (by_key timer key r).1.desk
  unfolding by_key
  by_key-Printed timer key r =
      let (done, v) = call_off-CallsOff (is_key b'-' key) r in
      let r1 = (call_off (is_key b'-' key) r).1 in
      let (done', w) = call_off-CallsOff (leb (r1.time + 10) timer) r1 in
      let r2 = (call_off (leb (r1.time + 10) timer) r1).1 in
      let both = CallsOff-trans v w in
      elim (Bool-cases (is_key b'0' key)) [
        | inl asked ↦
            let p = show_info-Printed (codes "Ticket ajouté.") r2.desk in
            let q = both.printed in
            rw (done, done', asked)
              (
                refl,
                record {
                  aside = Aside-trans q.aside p.aside;
                  card = p.card ∙ q.card;
                  device = p.device ∙ q.device;
                },
              )
        | inr other ↦ rw (done, done', other) (refl, both.printed)
      ]

-- What the state `r'` is once `price` has been paid from state `r` on.
pub record IsPaid {D F : Type 0} (content : D → ℕ → List ℕ) (key uid : List ℕ) (float : FloatUnit F)
    (tag : ℕ → List ℕ) (blocks : List (List Block)) (new : List Block) (price : F) (k k' : Desk D F)
    : Type 0 where
  pub stands : CardStands content key uid (pushed 4 new tag) (set blocks 1 new) k'
  pub requests : k'.requests ≡ history_line float k.config.pianss (codes "KVE") price ∷ k.requests

module _ {D F : Type 0} {nfc : Libnfc D} {content : D → ℕ → List ℕ} {opened : D → ℕ → Bool}
    {key uid : List ℕ} (reader : IsMifare nfc content opened key uid) (float : FloatUnit F)
    (unit : IsFloatUnit float) {tag : ℕ → List ℕ} (blocks : List (List Block)) (b0 b1 b2 b3 : Block)
    (here : get_elem? blocks 1 ≡ some (b0 ∷ b1 ∷ b2 ∷ b3 ∷ []))
    (trailer : b3.state ≢ State.modified) (whole : IsBlock b1)
    (named : c_string (memory b0) ≡ codes "DEBIT") where
  settle-IsPaid :
      (price : F) (k : Desk D F)
      → CardStands content key uid tag blocks k
      → Pays float (credit_in float b1) price
      → ((settle nfc float true price k).0 ≡ ok tt)
        × IsPaid content key uid float tag blocks
            (with_credit (float.to_memory (float.subtract (credit_in float b1) price)) b0 b1 b2 b3)
            price
            k
            (settle nfc float true price k).1
  unfolding settle decrement_credit send_history
  settle-IsPaid price k v pays =
      let left = float.subtract (credit_in float b1) price in
      let k1 = (show_info (codes "OK") k).1 in
      let v1 = CardStands-Printed k k1 (show_info-Printed (codes "OK") k) v in
      let holds = CardStands-Holds k1 blocks here v1 in
      let reads = get_credit_lem float k1 b0 b1 (b2 ∷ b3 ∷ []) holds named in
      let (done, (c, there, w)) =
        store_credit-Stands reader float unit blocks b0 b1 b2 b3 here trailer whole left k1 v1 in
      let k2 = (store_credit nfc float left k1).1 in
      let aside = store_credit-Aside nfc float left k1 in
      rw (reads, pays.left, done)
        (
          refl,
          record {
            stands = (c, there, record { card = w.card; memory = w.memory; on_tag = w.on_tag });
            requests =
                ap (λ c. history_line float c.pianss (codes "KVE") price ∷ k2.requests) aside.config
                ∙ ap (λ l. history_line float k.config.pianss (codes "KVE") price ∷ l)
                    aside.requests;
          },
        )

  pub pay_price-IsPaid :
      (world : World F) (r : KveRun D F)
      → CardStands content key uid tag blocks r.desk
      → Pays float (credit_in float b1) (world.amounts r.desk.entries)
      → ((pay_price nfc float world r).0 ≡ ok tt)
        × ((pay_price nfc float world r).1.ticket ≡ false)
        × IsPaid content key uid float tag blocks
            (with_credit
              (float.to_memory (float.subtract (credit_in float b1) (world.amounts r.desk.entries)))
              b0
              b1
              b2
              b3)
            (world.amounts r.desk.entries)
            r.desk
            (pay_price nfc float world r).1.desk
  unfolding pay_price
  pay_price-IsPaid world r (c, there, w) pays =
      let price = world.amounts r.desk.entries in
      let k1 = (show_info (codes "Entrez le prix du cok'ss : ") r.desk).1 in
      let k2 = record k1 { entries = suc k1.entries } in
      let v2 : CardStands content key uid tag blocks k2 =
        (c, there, record { card = w.card; memory = w.memory; on_tag = w.on_tag }) in
      let holds = CardStands-Holds k2 blocks here v2 in
      let reads = get_credit_lem float k2 b0 b1 (b2 ∷ b3 ∷ []) holds named in
      let (done, p) = settle-IsPaid price k2 v2 pays in
      let k3 = (settle nfc float true price k2).1 in
      let r3 = record r { desk = k3 } in
      let (called, off) = call_off-CallsOff true r3 in
      let r4 = (call_off true r3).1 in
      let q = show_info-Printed (codes "Posez une cart DEBIT.") r4.desk in
      rw (reads, pays.enough, done, called)
        (
          refl,
          call_off_none r3,
          record {
            stands =
                CardStands-Printed r4.desk _ q (CardStands-Printed k3 r4.desk off.printed p.stands);
            requests = off.printed.aside.requests ∙ p.requests;
          },
        )
