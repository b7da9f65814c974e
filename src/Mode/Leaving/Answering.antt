-- ===== src/Mode/Leaving/Answering.antt =====
-- What `testCard`, `isAdmin` and `hasTicket` (src/mode.cpp) leave alone, and when `isAdmin` says true.
use programme_bee_gadz.Common.{
  ℕ, ◌≡◌, refl, ap, ◌∙◌, sym, Bool, true, false, Option, none, some, List, ◌∷◌, Result, ok, threw,
  fault, continue, pure, ◌>>◌, codes, same_text, if◌then◌else◌, get_elem?, in_range, ◌>>=◌, not,
  ◌==◌, modify, Action,
}
use programme_bee_gadz.Block.{Block, get_byte, memory}
use programme_bee_gadz.Card.State.{Card, Held, the_sector}
use programme_bee_gadz.Card.Commands.{the_block}
use programme_bee_gadz.Config.{Config, ConfigMode, set_mode}
use programme_bee_gadz.Mode.{
  card_byte, c_string, read_block, test_card, is_admin, is_debit, has_ticket,
}
use programme_bee_gadz.Mode.Members.{Desk, with_card, put_held}
use programme_bee_gadz.Mode.Memory.{Holds}
use programme_bee_gadz.Mode.Kinds.{test_card_lem}
use programme_bee_gadz.Mode.Leaving.{Gives, Looks, then_Looks, in_range-Looks, HasAdmin}

module _ {D F : Type 0} where
  with_card-Looks :
      {A : Type 0} (o : Option Card) (m : Action (Held D) A) (k : Desk D F)
      → Looks m
      → k.card ≡ o
      → (with_card o m k).1 ≡ k
  with_card-Looks none m k looks e = refl
  with_card-Looks (some c) m k looks e =
      let h : Held D = record { card = c; env = k.env } in
      ap (λ h. put_held k h) (looks h) ∙ ap (λ o. record k { card = o }) (sym e)

  read_block-Looks : (b : ℕ) → Looks (read_block {D = D} {F = F} b)
  read_block-Looks b k =
      with_card-Looks k.card (the_block 1 b) k
        (then_Looks (the_sector 1) (λ s. in_range (get_elem? s.blocks b))
          (λ h. in_range-Looks (get_elem? h.card.sectors 1) h)
          (λ s. in_range-Looks (get_elem? s.blocks b)))
        refl

  pub test_card-Looks : (str : List ℕ) → Looks (test_card {D = D} {F = F} str)
  unfolding test_card
  test_card-Looks str =
      then_Looks (read_block 0) (λ b. pure (same_text str (c_string (memory b))))
        (read_block-Looks 0) (λ b k. refl)

  pub has_ticket-Looks : Looks (has_ticket {D = D} {F = F})
  unfolding has_ticket is_debit
  has_ticket-Looks =
      then_Looks (test_card (codes "DEBIT"))
        (λ d. if d then (card_byte 2 0 >>= λ n. pure (not (n == 0))) else pure false)
        (test_card-Looks (codes "DEBIT")) found
    where
      byte : Looks {S = Desk D F} (card_byte 2 0)
      byte =
          then_Looks (read_block 2) (λ x. in_range (get_byte x 0)) (read_block-Looks 2)
            (λ x. in_range-Looks (get_byte x 0))

      found :
          (d : Bool)
          → Looks {S = Desk D F}
              (if d then (card_byte 2 0 >>= λ n. pure (not (n == 0))) else pure false)
      found true = then_Looks (card_byte 2 0) (λ n. pure (not (n == 0))) byte (λ n k. refl)
      found false = λ k. refl

abbrev judged : List ℕ → Result Block → Result Bool
judged str (ok b) = ok (same_text str (c_string (memory b)))
judged str threw = threw
judged str fault = fault

module _ {D F : Type 0} where
  block_of :
      (o : Option Card) (k k' : Desk D F)
      → k'.env ≡ k.env
      → (i : ℕ) → (with_card o (the_block 1 i) k').0 ≡ (with_card o (the_block 1 i) k).0
  block_of none k k' e i = refl
  block_of (some c) k k' e i = ap (λ env. (the_block 1 i (record { card = c; env = env })).0) e

  test_card_judged :
      (str : List ℕ) (r : Result Block × Desk D F)
      → (continue (λ b. pure (same_text str (c_string (memory b)))) r).0 ≡ judged str r.0
  test_card_judged str (ok b, k) = refl
  test_card_judged str (threw, k) = refl
  test_card_judged str (fault, k) = refl

  -- `testCard` does not look at the configuration.
  test_card_config :
      (str : List ℕ) (c : Config F) (k : Desk D F)
      → (test_card str (record k { config = c })).0 ≡ (test_card str k).0
  unfolding test_card
  test_card_config str c k =
      let k' = record k { config = c } in
      test_card_judged str (read_block 0 k')
      ∙ ap (judged str) (block_of k.card k k' refl 0)
      ∙ sym (test_card_judged str (read_block 0 k))

  -- `isAdmin` says true only of an ADMIN card, and then the configuration's mode is that of
  -- administration.
  pub is_admin-Gives : (k : Desk D F) → Gives (λ admin k'. admin ≡ true → HasAdmin k') (is_admin k)
  unfolding is_admin
  is_admin-Gives k = ended (test_card (codes "ADMIN") k) refl (test_card-Looks (codes "ADMIN") k)
    where
      ended :
          (r : Result Bool × Desk D F)
          → (test_card (codes "ADMIN") k).0 ≡ r.0
          → r.1 ≡ k
          → Gives
              (λ admin k'. admin ≡ true → HasAdmin k')
              (continue
                (λ t.
                  if t
                  then (modify (λ k. record k { config = set_mode ConfigMode.admin k.config })
                      >> pure true)
                  else pure false)
                r)
      ended (ok true, k') e same = λ _. record {
        named =
            test_card_config (codes "ADMIN") (set_mode ConfigMode.admin k'.config) k'
            ∙ ap (λ k. (test_card (codes "ADMIN") k).0) same
            ∙ e;
        mode = refl;
      }
      ended (ok false, k') e same = λ f. cc
      ended (threw, k') e same = tt
      ended (fault, k') e same = tt

module _ {D F : Type 0} where
  -- The mode of administration is in the configuration.
  abbrev pub in_admin : Desk D F → Desk D F
  in_admin k = record k { config = set_mode ConfigMode.admin k.config }

  -- What the tests answer on an ADMIN card
  pub is_admin_lem :
      (k : Desk D F) (b0 : Block) (rest : List Block)
      → Holds k (b0 ∷ rest)
      → c_string (memory b0) ≡ codes "ADMIN"
      → (is_admin k ≡ (ok true, in_admin k))
        × ((str : List ℕ)
            → test_card str (in_admin k) ≡ (ok (same_text str (codes "ADMIN")), in_admin k))
  unfolding is_admin
  is_admin_lem k b0 rest holds named =
      let first : test_card (codes "ADMIN") k ≡ (ok true, k) =
        test_card_lem (codes "ADMIN") k holds refl
        ∙ ap (λ n. (ok (same_text (codes "ADMIN") n), k)) named in
      (
        rw first refl,
        λ str.
            test_card_lem str (in_admin k) holds refl
            ∙ ap (λ n. (ok (same_text str n), in_admin k)) named,
      )
