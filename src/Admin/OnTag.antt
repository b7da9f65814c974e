-- ===== src/Admin/OnTag.antt =====
-- The CONSO card and the ticket that the menus make (src/admin.cpp), on the tag, as the other modes read
-- them from it.
use programme_bee_gadz.Common.{
  ℕ, ◌<◌, ◌≡◌, ◌≢◌, refl, ap, ◌∙◌, Bool, true, false, some, List, [], ◌∷◌, arith, ok, pos, codes,
  length, get_elem?, set, get_elem?-set_self, get_elem?-set_ne, length-set,
}
use programme_bee_gadz.Block.{Block, IsBlock, State, set_state, set_byte, memory, is_modified}
use programme_bee_gadz.Mifare.{Libnfc}
use programme_bee_gadz.Card.Sectors.{read_sector}
use programme_bee_gadz.Card.Tag.{IsMifare}
use programme_bee_gadz.Card.Tag.Fetching.{clean_block}
use programme_bee_gadz.Card.Tag.Writing.{pushed, stored, AreWritable}
use programme_bee_gadz.Card.Tag.Stored.{pushed_before, stored_self}
use programme_bee_gadz.Mode.{
  c_string, write_name, is_conso, has_ticket, get_ticket, change_block, mark,
}
use programme_bee_gadz.Mode.Members.{Desk, on_card}
use programme_bee_gadz.Mode.Memory.{Holds, read_block_lem}
use programme_bee_gadz.Mode.Kinds.{six_of, test_card_lem, has_ticket_lem, get_ticket_lem}
use programme_bee_gadz.Mode.OnTag.{CardStands}
use programme_bee_gadz.Mode.OnTag.Changing.{
  change_block-Changes, then_Changes, changed_on_tag, read_again,
}
use programme_bee_gadz.Bar.{get_conso_id}
use programme_bee_gadz.Bar.OnTag.Again.{c_string-append}
use programme_bee_gadz.Admin.{fill_conso, fill_ticket, create_conso, set_ticket}

-- The blocks of sector 1 that `createConso` and `setTicket` change
abbrev conso_block : Block → Block
conso_block b = set_state State.modified (write_name (codes "CONSO") b)

abbrev id_block : ℕ → Block → Block
id_block id b = set_state State.modified (set_byte 0 id b)

abbrev ticket_block : ℕ → Block → Block
ticket_block id b = set_state State.modified (set_byte 1 id (set_byte 0 1 b))

name-IsBlock : (b : Block) → IsBlock b → IsBlock (write_name (codes "CONSO") b)
name-IsBlock b whole =
    let (x0, x1, x2, x3, x4, x5, rest, e) = six_of b.data_bytes (omega arith) in
    rw e (rw e at whole)

name_on_tag :
    (b : Block)
    → IsBlock b
    → c_string (memory (clean_block ((conso_block b).data_bytes))) ≡ codes "CONSO"
name_on_tag b whole =
    let (x0, x1, x2, x3, x4, x5, rest, e) = six_of b.data_bytes (omega arith) in rw e refl

module _ {D F : Type 0} {nfc : Libnfc D} {content : D → ℕ → List ℕ} {opened : D → ℕ → Bool}
    {key uid : List ℕ} (reader : IsMifare nfc content opened key uid) {tag : ℕ → List ℕ} (id : ℕ)
    (k : Desk D F) (blocks : List (List Block)) (b0 b1 b2 b3 : Block)
    (here : get_elem? blocks 1 ≡ some (b0 ∷ b1 ∷ b2 ∷ b3 ∷ []))
    (trailer : b3.state ≢ State.modified) (v : CardStands content key uid tag blocks k) where
  all_writable : (c0 c1 c2 : Block) → AreWritable 4 (c0 ∷ c1 ∷ c2 ∷ b3 ∷ [])
  all_writable c0 c1 c2 = (
    λ e. (omega arith, omega arith, omega arith),
    (
      λ e. (omega arith, omega arith, omega arith),
      (λ e. (omega arith, omega arith, omega arith), (λ e. absurd (trailer e), tt)),
    ),
  )

  create_conso-CardStands :
      IsBlock b0
      → IsBlock b1
      → ((create_conso nfc id k).0 ≡ ok tt)
        × CardStands content key uid
            (pushed 4 (conso_block b0 ∷ id_block id b1 ∷ b2 ∷ b3 ∷ []) tag)
            (set blocks 1 (conso_block b0 ∷ id_block id b1 ∷ b2 ∷ b3 ∷ []))
            (create_conso nfc id k).1
  unfolding create_conso fill_conso
  create_conso-CardStands whole0 whole1 =
      let named = name-IsBlock b0 whole0 in
      let chosen : IsBlock (set_byte 0 id b1) = length-set b1.data_bytes 0 id ∙ whole1 in
      changed_on_tag reader (fill_conso id) k
        (then_Changes content key uid tag (change_block 0 (write_name (codes "CONSO"))) _
          (change_block-Changes content key uid tag 0 _ _ refl named)
          (then_Changes content key uid tag (change_block 1 (set_byte 0 id)) _
            (change_block-Changes content key uid tag 1 _ _ refl chosen)
            (then_Changes content key uid tag (mark 0) (mark 1)
              (change_block-Changes content key uid tag 0 _ _ refl named)
              (change_block-Changes content key uid tag 1 _ _ refl chosen))))
        here (all_writable (conso_block b0) (id_block id b1) b2) v

  set_ticket-CardStands :
      IsBlock b2
      → ((set_ticket nfc id k).0 ≡ ok tt)
        × CardStands content key uid
            (pushed 4 (b0 ∷ b1 ∷ ticket_block id b2 ∷ b3 ∷ []) tag)
            (set blocks 1 (b0 ∷ b1 ∷ ticket_block id b2 ∷ b3 ∷ []))
            (set_ticket nfc id k).1
  unfolding set_ticket fill_ticket
  set_ticket-CardStands whole =
      let one : IsBlock (set_byte 0 1 b2) = length-set b2.data_bytes 0 1 ∙ whole in
      let both : IsBlock (set_byte 1 id (set_byte 0 1 b2)) =
        length-set (set b2.data_bytes 0 1) 1 id ∙ one in
      changed_on_tag reader (fill_ticket id) k
        (then_Changes content key uid tag (change_block 2 (set_byte 0 1)) _
          (change_block-Changes content key uid tag 2 _ _ refl one)
          (then_Changes content key uid tag (change_block 2 (set_byte 1 id)) (mark 2)
            (change_block-Changes content key uid tag 2 _ _ refl both)
            (change_block-Changes content key uid tag 2 _ _ refl both)))
        here (all_writable b0 b1 (ticket_block id b2)) v

get_conso_id_lem :
    {D F : Type 0} (k : Desk D F) (b0 b1 : Block) (rest : List Block) {n : ℕ}
    → Holds k (b0 ∷ b1 ∷ rest)
    → c_string (memory b0) ≡ codes "CONSO"
    → get_elem? b1.data_bytes 0 ≡ some n
    → get_conso_id k ≡ (ok (pos n), k)
unfolding get_conso_id is_conso
get_conso_id_lem k b0 b1 rest holds named first =
    rw (test_card_lem (codes "CONSO") k holds refl, named, read_block_lem k 1 holds refl, first)
      refl

-- A card stands beside its tag, and its sector 1 is not to be given another trailer: `createConso` returns,
-- and when the card is read again, by any mode and into any memory, the bar reads it as a CONSO card for
-- the drink.
pub create_conso_read_again :
    {D F : Type 0} {nfc : Libnfc D} {content : D → ℕ → List ℕ} {opened : D → ℕ → Bool}
    {key uid : List ℕ} (reader : IsMifare nfc content opened key uid) {tag : ℕ → List ℕ} (id : ℕ)
    (k : Desk D F) (blocks : List (List Block)) (b0 b1 b2 b3 : Block)
    → get_elem? blocks 1 ≡ some (b0 ∷ b1 ∷ b2 ∷ b3 ∷ [])
    → b3.state ≢ State.modified
    → IsBlock b0
    → IsBlock b1
    → CardStands content key uid tag blocks k
    → (later : Desk D F) (old : List (List Block))
    → CardStands content key uid (content (create_conso nfc id k).1.env.device) old later
    → ((create_conso nfc id k).0 ≡ ok tt)
      × ((on_card (read_sector nfc 1) later).0 ≡ ok true)
      × (get_conso_id (on_card (read_sector nfc 1) later).1
          ≡ (ok (pos id), (on_card (read_sector nfc 1) later).1))
create_conso_read_again {nfc = nfc} {content = content} reader {tag} id k blocks b0 b1 b2 b3 here
      trailer whole0 whole1 v later old again =
    let c0 = conso_block b0 in
    let c1 = id_block id b1 in
    let d = (create_conso nfc id k).1.env.device in
    let (done, (c, held, stands)) =
      create_conso-CardStands reader id k blocks b0 b1 b2 b3 here trailer v whole0 whole1 in
    let (read, holds) = read_again reader later old again in
    let name : content d 4 ≡ c0.data_bytes =
      stands.on_tag 4 ∙ pushed_before 5 4 (c1 ∷ b2 ∷ b3 ∷ []) (stored 4 c0 tag) (omega arith) in
    let drink : content d 5 ≡ c1.data_bytes =
      stands.on_tag 5
      ∙ pushed_before 6 5 (b2 ∷ b3 ∷ []) (stored 5 c1 (stored 4 c0 tag)) (omega arith) in
    (
      done,
      read,
      get_conso_id_lem (on_card (read_sector nfc 1) later).1 _ _ _ holds
          (ap (λ bytes. c_string (memory (clean_block bytes))) name ∙ name_on_tag b0 whole0)
          (ap (λ bytes. get_elem? bytes 0) drink
            ∙ get_elem?-set_self b1.data_bytes 0 id (omega arith)),
    )

-- A DEBIT card stands beside its tag, which has the card's name in block 4 or is to be given it, and its
-- sector 1 is not to be given another trailer: `setTicket` returns, and when the card is read again, by any
-- mode and into any memory, it has a ticket, which is for the drink.
pub set_ticket_read_again :
    {D F : Type 0} {nfc : Libnfc D} {content : D → ℕ → List ℕ} {opened : D → ℕ → Bool}
    {key uid : List ℕ} (reader : IsMifare nfc content opened key uid) {tag : ℕ → List ℕ} (id : ℕ)
    (k : Desk D F) (blocks : List (List Block)) (b0 b1 b2 b3 : Block)
    → get_elem? blocks 1 ≡ some (b0 ∷ b1 ∷ b2 ∷ b3 ∷ [])
    → b3.state ≢ State.modified
    → IsBlock b0
    → IsBlock b2
    → c_string (memory b0) ≡ codes "DEBIT"
    → (is_modified b0.state ≡ false → tag 4 ≡ b0.data_bytes)
    → CardStands content key uid tag blocks k
    → (later : Desk D F) (old : List (List Block))
    → CardStands content key uid (content (set_ticket nfc id k).1.env.device) old later
    → ((set_ticket nfc id k).0 ≡ ok tt)
      × ((on_card (read_sector nfc 1) later).0 ≡ ok true)
      × (has_ticket (on_card (read_sector nfc 1) later).1
          ≡ (ok true, (on_card (read_sector nfc 1) later).1))
      × (get_ticket (on_card (read_sector nfc 1) later).1
          ≡ (ok id, (on_card (read_sector nfc 1) later).1))
set_ticket_read_again {nfc = nfc} {content = content} reader {tag} id k blocks b0 b1 b2 b3 here
      trailer whole0 whole2 named on_tag v later old again =
    let c2 = ticket_block id b2 in
    let d = (set_ticket nfc id k).1.env.device in
    let k2 = (on_card (read_sector nfc 1) later).1 in
    let (done, (c, held, stands)) =
      set_ticket-CardStands reader id k blocks b0 b1 b2 b3 here trailer v whole2 in
    let (read, holds) = read_again reader later old again in
    let name : content d 4 ≡ b0.data_bytes =
      stands.on_tag 4
      ∙ pushed_before 5 4 (b1 ∷ c2 ∷ b3 ∷ []) (stored 4 b0 tag) (omega arith)
      ∙ stored_self 4 b0 tag on_tag in
    let ticket : content d 6 ≡ c2.data_bytes =
      stands.on_tag 6
      ∙ pushed_before 7 6 (b3 ∷ []) (stored 6 c2 (stored 5 b1 (stored 4 b0 tag))) (omega arith) in
    let short : length (c_string (memory b0)) < length b0.data_bytes =
      rw (named, whole0) (omega arith) in
    let named_there : c_string (memory (clean_block (content d 4))) ≡ codes "DEBIT" =
      ap (λ bytes. c_string (memory (clean_block bytes))) name
      ∙ c_string-append b0.data_bytes _ _ short
      ∙ named in
    let first : get_elem? (content d 6) 0 ≡ some 1 =
      ap (λ bytes. get_elem? bytes 0) ticket
      ∙ get_elem?-set_ne (set b2.data_bytes 0 1) 1 0 id (λ e. cc)
      ∙ get_elem?-set_self b2.data_bytes 0 1 (omega arith) in
    let second : get_elem? (content d 6) 1 ≡ some id =
      ap (λ bytes. get_elem? bytes 1) ticket
      ∙ get_elem?-set_self (set b2.data_bytes 0 1) 1 id
          (omega (arith, length-set b2.data_bytes 0 1)) in
    (
      done,
      read,
      has_ticket_lem k2 _ _ _ _ holds named_there first,
      get_ticket_lem k2 _ _ _ _ holds named_there first second,
    )
