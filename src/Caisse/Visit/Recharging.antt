-- ===== src/Caisse/Visit/Recharging.antt =====
-- A sum that is put on a DEBIT card that stands beside its tag (the DEBIT branch of `Caisse::run`,
-- src/caisse.cpp).
use programme_bee_gadz.Common.{
  ℕ, suc, ◌≡◌, ◌≢◌, refl, ap, ◌∙◌, Bool, false, some, List, [], ◌∷◌, ◌++◌, arith, ok, codes, set,
  get_elem?, ◌==◌, Option-cases, Bool-cases, inl, inr, get_elem?-set_self,
}
use programme_bee_gadz.Block.{Block, IsBlock, State, memory}
use programme_bee_gadz.Mifare.{Libnfc}
use programme_bee_gadz.Card.Tag.{IsMifare, Stands-length}
use programme_bee_gadz.Card.Tag.Writing.{pushed}
use programme_bee_gadz.Config.{get_conso}
use programme_bee_gadz.Mode.{c_string, send_history}
use programme_bee_gadz.Mode.Members.{FloatUnit, IsFloatUnit, World, Desk, show_info}
use programme_bee_gadz.Mode.Memory.{Holds}
use programme_bee_gadz.Mode.Kinds.{
  credit_in, credit_block, get_credit_lem, has_ticket_lem, get_ticket_lem,
}
use programme_bee_gadz.Mode.Aside.{
  Aside-refl, Aside-trans, Printed, show_info-Printed, history_line, CardStands-Printed,
}
use programme_bee_gadz.Mode.OnTag.{CardStands, CardStands-Holds}
use programme_bee_gadz.Bar.OnTag.{with_credit, store_credit-Aside, store_credit-Stands}
use programme_bee_gadz.Bar.{store_credit}
use programme_bee_gadz.Caisse.{increment_credit, show_sum, show_ticket, recharge_with, recharge}

module _ {D F : Type 0} (nfc : Libnfc D) (float : FloatUnit F) (k : Desk D F) (b0 b1 b2 : Block)
    (rest : List Block) (holds : Holds k (b0 ∷ b1 ∷ b2 ∷ rest))
    (named : c_string (memory b0) ≡ codes "DEBIT") where
  show_sum-Printed : ((show_sum nfc float k).0 ≡ ok tt) × Printed k (show_sum nfc float k).1
  unfolding show_sum
  show_sum-Printed = rw (get_credit_lem float k b0 b1 (b2 ∷ rest) holds named) (
    refl,
    show_info-Printed (codes "Montant sur la carte : " ++ float.shown (credit_in float b1)) k,
  )

  -- The ticket is shown, if there is one and its drink is known.
  show_ticket-Printed :
      {n t : ℕ}
      → get_elem? b2.data_bytes 0 ≡ some n
      → get_elem? b2.data_bytes 1 ≡ some t
      → ((show_ticket nfc float k).0 ≡ ok tt) × Printed k (show_ticket nfc float k).1
  unfolding show_ticket
  show_ticket-Printed {n} {t} first second =
      let has = has_ticket_lem k b0 b1 b2 rest holds named first in
      let id = get_ticket_lem k b0 b1 b2 rest holds named first second in
      elim (Bool-cases (n == 0)) [
        | inl e ↦
            rw (has, id, e) (refl, record { aside = Aside-refl k; card = refl; device = refl })
        | inr e ↦ elim (Option-cases (get_conso t k.config)) [
          | inl nothing ↦
              rw (has, id, e, nothing)
                (refl, record { aside = Aside-refl k; card = refl; device = refl })
          | inr (d, known) ↦
              rw (has, id, e, known)
                (refl, show_info-Printed (codes "Ticket sur la carte : " ++ d.0) k)
        ]
      ]

-- A sum that `recharge` takes, and the credit that it makes
pub record Adds {F : Type 0} (float : FloatUnit F) (sum : F) : Type 0 where
  pub small : float.exceeds sum 250 ≡ false
  pub something : float.is_zero sum ≡ false

-- What the state `k'` is once `sum` has been put on the card from state `k` on.
pub record IsRecharged {D F : Type 0} (content : D → ℕ → List ℕ) (key uid : List ℕ)
    (float : FloatUnit F) (tag : ℕ → List ℕ) (blocks : List (List Block)) (new : List Block)
    (sum : F) (k k' : Desk D F) : Type 0 where
  pub stands : CardStands content key uid (pushed 4 new tag) (set blocks 1 new) k'
  pub requests : k'.requests ≡ history_line float k.config.pianss (codes "DEBIT") sum ∷ k.requests

module _ {D F : Type 0} {nfc : Libnfc D} {content : D → ℕ → List ℕ} {opened : D → ℕ → Bool}
    {key uid : List ℕ} (reader : IsMifare nfc content opened key uid) (float : FloatUnit F)
    (unit : IsFloatUnit float) {tag : ℕ → List ℕ} (blocks : List (List Block)) (b0 b1 b2 b3 : Block)
    (here : get_elem? blocks 1 ≡ some (b0 ∷ b1 ∷ b2 ∷ b3 ∷ []))
    (trailer : b3.state ≢ State.modified) (whole : IsBlock b1)
    (named : c_string (memory b0) ≡ codes "DEBIT") where
  recharge_with-IsRecharged :
      (sum : F) (k : Desk D F)
      → CardStands content key uid tag blocks k
      → Adds float sum
      → ((recharge_with nfc float sum k).0 ≡ ok tt)
        × IsRecharged content key uid float tag blocks
            (with_credit (float.to_memory (float.add sum (credit_in float b1))) b0 b1 b2 b3)
            sum
            k
            (recharge_with nfc float sum k).1
  unfolding recharge_with increment_credit send_history
  recharge_with-IsRecharged sum k v adds =
      let holds = CardStands-Holds k blocks here v in
      let total = float.add sum (credit_in float b1) in
      let new = with_credit (float.to_memory total) b0 b1 b2 b3 in
      let reads = get_credit_lem float k b0 b1 (b2 ∷ b3 ∷ []) holds named in
      let (done, v') =
        store_credit-Stands reader float unit blocks b0 b1 b2 b3 here trailer whole total k v in
      let k' = (store_credit nfc float total k).1 in
      let aside = store_credit-Aside nfc float total k in
      let k2 = (send_history float (codes "DEBIT") sum k').1 in
      let (c, there, w) = v' in
      let stands2 : CardStands content key uid (pushed 4 new tag) (set blocks 1 new) k2 =
        (c, there, record { card = w.card; memory = w.memory; on_tag = w.on_tag }) in
      let (c0, there0, w0) = v in
      let at = get_elem?-set_self blocks 1 new (omega (arith, Stands-length w0)) in
      let holds2 = CardStands-Holds k2 (set blocks 1 new) at stands2 in
      let (shown, p) =
        show_sum-Printed nfc float k2 b0 (credit_block (float.to_memory total) b1) b2 (b3 ∷ [])
          holds2 named in
      let k3 = (show_sum nfc float k2).1 in
      let q = show_info-Printed (codes "Posez une carte") k3 in
      rw (adds.small, adds.something, reads, done, shown)
        (
          refl,
          record {
            stands = CardStands-Printed k3 _ q (CardStands-Printed k2 k3 p stands2);
            requests =
                p.aside.requests
                ∙ ap (λ c. history_line float c.pianss (codes "DEBIT") sum ∷ k'.requests)
                    aside.config
                ∙ ap (λ l. history_line float k.config.pianss (codes "DEBIT") sum ∷ l)
                    aside.requests;
          },
        )

  pub recharge-IsRecharged :
      (world : World F) (k : Desk D F) {n t : ℕ}
      → CardStands content key uid tag blocks k
      → get_elem? b2.data_bytes 0 ≡ some n
      → get_elem? b2.data_bytes 1 ≡ some t
      → Adds float (world.amounts k.entries)
      → ((recharge nfc float world k).0 ≡ ok tt)
        × IsRecharged content key uid float tag blocks
            (with_credit
              (float.to_memory (float.add (world.amounts k.entries) (credit_in float b1)))
              b0
              b1
              b2
              b3)
            (world.amounts k.entries)
            k
            (recharge nfc float world k).1
  unfolding recharge
  recharge-IsRecharged world k v first second adds =
      let sum = world.amounts k.entries in
      let total = float.add sum (credit_in float b1) in
      let holds = CardStands-Holds k blocks here v in
      let (shown, p1) = show_sum-Printed nfc float k b0 b1 b2 (b3 ∷ []) holds named in
      let k1 = (show_sum nfc float k).1 in
      let v1 = CardStands-Printed k k1 p1 v in
      let holds1 = CardStands-Holds k1 blocks here v1 in
      let (told, p2) =
        show_ticket-Printed nfc float k1 b0 b1 b2 (b3 ∷ []) holds1 named first second in
      let k2 = (show_ticket nfc float k1).1 in
      let message = codes "Entrez le montant à ajouter sur la carte : " in
      let k3 = (show_info message k2).1 in
      let p3 = show_info-Printed message k2 in
      let (c, there, w) = CardStands-Printed k2 k3 p3 (CardStands-Printed k1 k2 p2 v1) in
      let k4 = record k3 { entries = suc k3.entries } in
      let v4 : CardStands content key uid tag blocks k4 =
        (c, there, record { card = w.card; memory = w.memory; on_tag = w.on_tag }) in
      let aside = Aside-trans p1.aside (Aside-trans p2.aside p3.aside) in
      let same : world.amounts k3.entries ≡ sum = ap world.amounts aside.entries in
      let (done, r) = recharge_with-IsRecharged sum k4 v4 adds in
      rw (shown, told, same, done)
        (
          refl,
          record {
            stands = r.stands;
            requests =
                r.requests
                ∙ ap (λ c. history_line float c.pianss (codes "DEBIT") sum ∷ k3.requests)
                    aside.config
                ∙ ap (λ l. history_line float k.config.pianss (codes "DEBIT") sum ∷ l)
                    aside.requests;
          },
        )
