-- ===== src/Bar/Visit/Ordered.antt =====
-- A round of the loop of `Bar::run` (src/bar.cpp) in which a CONSO card is laid on the reader.
use programme_bee_gadz.Common.{
  ℕ, ◌≡◌, ◌⊎◌, refl, ap, ◌∙◌, Bool, some, List, [], ◌∷◌, ok, threw, codes, set, take, get_elem?,
  handle, pure, Option-cases, inl, inr, Result, continue, Action, fault, ◌++◌, ◌>>◌,
}
use programme_bee_gadz.Block.{Block, memory}
use programme_bee_gadz.Mifare.{Libnfc, Target}
use programme_bee_gadz.Card.Tag.{IsMifare}
use programme_bee_gadz.Card.Tag.Fetching.{clean_block}
use programme_bee_gadz.Card.Tag.Reading.{sector_of}
use programme_bee_gadz.Card.Tag.Fresh.{IsFound, unread_blocks}
use programme_bee_gadz.Config.{get_conso}
use programme_bee_gadz.Mode.{c_string, is_conso, set_command}
use programme_bee_gadz.Mode.Members.{FloatUnit, World, Desk, show_info}
use programme_bee_gadz.Printer.Numerals.{decimal_of}
use programme_bee_gadz.Mode.Reader.{Next}
use programme_bee_gadz.Mode.Memory.{Holds, read_block_lem}
use programme_bee_gadz.Mode.OnTag.{CardStands-Holds}
use programme_bee_gadz.Bar.{
  Orders, add_one, BarRun, set_time, get_conso_id, print_orders, print_command,
}
use programme_bee_gadz.Bar.Round.{order, bar_round, say, display}
use programme_bee_gadz.Bar.Visit.{IsLaid, test_as, serve_conso}
use programme_bee_gadz.Mode.Laid.{IsRead, ended}
use programme_bee_gadz.Bar.Visit.Taking.{round_laid}

-- The call returns or throws, and the card, the reader, the configuration and the requests are as
-- before.
record Ends {D F : Type 0} (r : Result (Unit {0}) × Desk D F) (k : Desk D F) : Type 0 where
  how : (r.0 ≡ ok tt) ⊎ (r.0 ≡ threw)
  card : r.1.card ≡ k.card
  device : r.1.env.device ≡ k.env.device
  config : r.1.config ≡ k.config
  requests : r.1.requests ≡ k.requests

module _ {D F : Type 0} where
  -- The orders are shown, up to one that the configuration does not have.
  print_orders-Ends : (orders : Orders) (k : Desk D F) → Ends (print_orders orders k) k
  unfolding print_orders
  print_orders-Ends [] k = record {
    how = inl refl;
    card = refl;
    device = refl;
    config = refl;
    requests = refl;
  }
  print_orders-Ends (o ∷ orders) k = elim (Option-cases (get_conso o.0 k.config)) [
    | inl nothing ↦
        rw nothing
          (record { how = inr refl; card = refl; device = refl; config = refl; requests = refl })
    | inr (d, known) ↦
        let e = print_orders-Ends orders (show_info (d.0 ++ (codes " x" ++ decimal_of o.1)) k).1 in
        rw known (record {
          how = e.how;
          card = e.card;
          device = e.device;
          config = e.config;
          requests = e.requests;
        })
  ]

module _ {D F : Type 0} where
  -- What the orders are, and what is as before, once a call has ordered a drink from state `b` on.
  record IsOrdered (n : ℕ) (b : BarRun D F) (r : Result (Unit {0}) × BarRun D F) : Type 0 where
    how : (r.0 ≡ ok tt) ⊎ (r.0 ≡ threw)
    conso : r.1.conso ≡ add_one n b.conso
    card : r.1.desk.card ≡ b.desk.card
    device : r.1.desk.env.device ≡ b.desk.env.device
    config : r.1.desk.config ≡ b.desk.config
    requests : r.1.desk.requests ≡ b.desk.requests

  -- The rest of `order` once the orders have been shown
  after_command : ℕ → Unit {0} → Action (BarRun D F) (Unit {0})
  after_command timer u = do
    set_time timer
    say (codes "Posez une carte DEBIT.")
    display (codes "POSEZ CARTE DEBIT") 0 0

  shown-IsOrdered :
      (n timer : ℕ) (b : BarRun D F) (r : Result (Unit {0}) × Desk D F)
      → Ends r b.desk
      → IsOrdered n b
          (continue (after_command timer) (r.0, record b { desk = r.1; conso = add_one n b.conso }))
  unfolding after_command set_command
  shown-IsOrdered n timer b (ok u, k) e = record {
    how = inl refl;
    conso = refl;
    card = e.card;
    device = e.device;
    config = e.config;
    requests = e.requests;
  }
  shown-IsOrdered n timer b (threw, k) e = record {
    how = inr refl;
    conso = refl;
    card = e.card;
    device = e.device;
    config = e.config;
    requests = e.requests;
  }
  shown-IsOrdered n timer b (fault, k) e = elim e.how [ inl same ↦ cc | inr same ↦ cc ]

  order-IsOrdered :
      (nfc : Libnfc D) (float : FloatUnit F) (world : World F) (timer : ℕ) (b : BarRun D F)
      (b0 b1 : Block) (rest : List Block) {n : ℕ}
      → Holds b.desk (b0 ∷ b1 ∷ rest)
      → c_string (memory b0) ≡ codes "CONSO"
      → get_elem? b1.data_bytes 0 ≡ some n
      → IsOrdered n b (order timer b)
  unfolding order get_conso_id is_conso print_command after_command set_command
  order-IsOrdered nfc float world timer b b0 b1 rest {n} holds named byte =
      let is = test_as nfc float world timer b b0 (b1 ∷ rest) holds (codes "CONSO") named in
      let k' = (show_info (codes "Commande : ") b.desk).1 in
      let e = print_orders-Ends (add_one n b.conso) k' in
      rw (is (codes "CONSO"), read_block_lem b.desk 1 holds refl, byte)
        (shown-IsOrdered n timer b (print_orders (add_one n b.conso) k') (record {
          how = e.how;
          card = e.card;
          device = e.device;
          config = e.config;
          requests = e.requests;
        }))

-- A CONSO card for drink `n` is laid on the reader, no key is pressed and the orders are not too old.
-- After that round of the loop of `Bar::run` there is one drink `n` more in the orders, also where the
-- configuration does not have it; the card in hand is that card, as its tag is, and the tag, the
-- configuration and the database are as before.
pub drink_is_ordered :
    {D F : Type 0} {nfc : Libnfc D} {content : D → ℕ → List ℕ} {opened : D → ℕ → Bool}
    {key : List ℕ} {target : Target} (found : IsFound nfc content target)
    (reader : IsMifare nfc content opened key (take 4 target.uid)) (float : FloatUnit F)
    (world : World F) (b : BarRun D F) {n : ℕ}
    → IsLaid nfc content key target world b
    → c_string (memory (clean_block (content b.desk.env.device 4))) ≡ codes "CONSO"
    → get_elem? (content b.desk.env.device 5) 0 ≡ some n
    → ((bar_round nfc float world b).0 ≡ ok Next.again)
      × ((bar_round nfc float world b).1.conso ≡ add_one n b.conso)
      × IsRead content key target b.desk.env.device (bar_round nfc float world b).1.desk
      × ((bar_round nfc float world b).1.desk.config ≡ b.desk.config)
      × ((bar_round nfc float world b).1.desk.requests ≡ b.desk.requests)
drink_is_ordered {nfc = nfc} {content = content} found reader float world b {n} laid named byte =
    let tag = content b.desk.env.device in
    let b0 = clean_block (tag 4) in
    let rest = clean_block (tag 6) ∷ clean_block (tag 7) ∷ [] in
    let (b', timer, served, v, w) =
      round_laid found laid.known laid.four reader float world laid.raw b laid.free laid.keys
        laid.six laid.calm in
    let holds : Holds b'.desk (b0 ∷ clean_block (tag 5) ∷ rest) =
      CardStands-Holds b'.desk (set unread_blocks 1 (sector_of tag 1)) refl v in
    let e =
      order-IsOrdered nfc float world timer b' b0 (clean_block (tag 5)) rest holds named byte in
    let runs =
      served
      ∙ ap (handle (pure Next.again))
          (serve_conso nfc float world timer b' b0 (clean_block (tag 5) ∷ rest) holds named)
      ∙ ended (order timer b') e.how in
    let (c, there, s) = v in
    rw runs (
      refl,
      e.conso ∙ ap (add_one n) w.conso,
      (
        c,
        e.card ∙ there,
        record {
          card = s.card;
          memory = s.memory;
          on_tag = λ m. ap (λ d. content d m) e.device ∙ s.on_tag m;
        },
      ),
      e.config ∙ w.config,
      e.requests ∙ w.requests,
    )
