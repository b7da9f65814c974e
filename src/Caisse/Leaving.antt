-- ===== src/Caisse/Leaving.antt =====
-- How a round of `Caisse::run` (src/caisse.cpp) returns: by an ADMIN card.
use programme_bee_gadz.Common.{◌≡◌, refl, true, ok, pure, if◌then◌else◌, codes, List, ◌∷◌}
use programme_bee_gadz.Mifare.{Libnfc}
use programme_bee_gadz.Mode.{is_admin, is_sos, is_debit, is_conso}
use programme_bee_gadz.Mode.Members.{FloatUnit, World, Desk}
use programme_bee_gadz.Mode.Reader.{Next, is_held, still_there}
use programme_bee_gadz.Block.{Block, memory}
use programme_bee_gadz.Mode.{c_string}
use programme_bee_gadz.Mode.Memory.{Holds}
use programme_bee_gadz.Mode.Leaving.{
  then_Gives, after_Gives, HasAdmin, Leaves, Ends, again-Ends, after-Ends, if-Ends, caught-Ends,
  look-Answers, last-Answers,
}
use programme_bee_gadz.Mode.Leaving.Answering.{
  test_card-Looks, is_admin-Gives, in_admin, is_admin_lem,
}
use programme_bee_gadz.Caisse.{
  by_kind, serve, load, take_card, search_card, look_again, caisse_round,
}

module _ {D F : Type 0} (nfc : Libnfc D) (float : FloatUnit F) (world : World F) where
  abbrev own : Desk D F → Desk D F
  own k = k

  serve-Ends : Ends own (serve nfc float world)
  unfolding serve is_sos is_debit is_conso
  serve-Ends k =
      then_Gives (λ admin k. admin ≡ true → HasAdmin k) (Leaves own) _
        (λ admin. look-Answers own admin is_sos _ (test_card-Looks (codes "SOS")) (λ sos.
          look-Answers own admin is_conso _ (test_card-Looks (codes "CONSO")) (λ conso.
            look-Answers own admin is_debit _ (test_card-Looks (codes "DEBIT"))
              (λ debit. last-Answers own admin (by_kind nfc float world sos conso debit)))))
        (is_admin k) (is_admin-Gives k)

  take_card-Ends : Ends own (take_card nfc float world)
  unfolding take_card
  take_card-Ends k =
      if-Ends own (is_held k.card) _ (pure Next.again)
        (after-Ends own (if k.read then pure true else load nfc float world) _ (λ loaded.
          if-Ends own loaded (serve nfc float world) (pure Next.again) serve-Ends (again-Ends own)))
        (again-Ends own) k

  search_card-Ends : Ends own (search_card nfc float world)
  unfolding search_card
  search_card-Ends k = after_Gives (Leaves own) _ (λ u. take_card-Ends) _

  look_again-Ends : Ends own (look_again nfc float world)
  unfolding look_again
  look_again-Ends = after-Ends own (still_there nfc) _ (λ there.
      if-Ends own there (pure Next.again) (search_card nfc float world) (again-Ends own)
        search_card-Ends)

  -- A round that returns has met an ADMIN card.
  pub caisse_round-Ends : Ends own (caisse_round nfc float world)
  unfolding caisse_round
  caisse_round-Ends = caught-Ends own _ (λ k.
      if-Ends own (is_held k.card) (look_again nfc float world) (search_card nfc float world)
        look_again-Ends search_card-Ends k)

  -- An ADMIN card is in hand.
  pub serve_admin :
      (k : Desk D F) (b0 : Block) (rest : List Block)
      → Holds k (b0 ∷ rest)
      → c_string (memory b0) ≡ codes "ADMIN"
      → serve nfc float world k ≡ (ok (Next.returns true), in_admin k)
  unfolding serve is_sos is_conso is_debit
  serve_admin k b0 rest holds named =
      let (first, is) = is_admin_lem k b0 rest holds named in
      rw (first, is (codes "SOS"), is (codes "CONSO"), is (codes "DEBIT")) refl
