-- ===== src/Kve/Leaving.antt =====
-- How a round of `Kve::run` (src/kve.cpp) returns: by an ADMIN card.
use programme_bee_gadz.Common.{
  ◌≡◌, refl, ap, Bool, true, Action, Result, ok, threw, fault, pure, if◌then◌else◌, codes, ◌&&◌,
  gets, suc, List, ◌∷◌,
}
use programme_bee_gadz.Mifare.{Libnfc}
use programme_bee_gadz.Mode.{is_admin, is_sos, is_debit, is_conso, has_ticket}
use programme_bee_gadz.Mode.Members.{FloatUnit, World, Desk}
use programme_bee_gadz.Mode.Reader.{Next, is_held, still_there}
use programme_bee_gadz.Block.{Block, memory}
use programme_bee_gadz.Mode.{c_string}
use programme_bee_gadz.Mode.Memory.{Holds}
use programme_bee_gadz.Mode.Leaving.{
  Gives, then_Gives, after_Gives, HasAdmin, Leaves, Ends, again-Ends, after-Ends, if-Ends,
  caught-Ends, Looks, look-Answers, last-Answers,
}
use programme_bee_gadz.Mode.Leaving.Answering.{
  test_card-Looks, has_ticket-Looks, is_admin-Gives, in_admin, is_admin_lem,
}
use programme_bee_gadz.Kve.{
  KveRun, on_desk, by_key, by_kind, serve, load, take_card, search_card, look_again, attend,
  kve_round,
}

module _ {D F : Type 0} where
  abbrev own : KveRun D F → Desk D F
  own r = r.desk

  on_desk-Looks :
      {A : Type 0} (m : Action (Desk D F) A) → Looks m → Looks {S = KveRun D F} (on_desk m)
  on_desk-Looks m looks r = ap (λ k. record r { desk = k }) (looks r.desk)

  admin_Gives :
      (r : KveRun D F) → Gives (λ admin r. admin ≡ true → HasAdmin r.desk) (on_desk is_admin r)
  admin_Gives r = lifted (is_admin r.desk) (is_admin-Gives r.desk)
    where
      lifted :
          (x : Result Bool × Desk D F)
          → Gives (λ admin k. admin ≡ true → HasAdmin k) x
          → Gives (λ admin r. admin ≡ true → HasAdmin r.desk) (x.0, record r { desk = x.1 })
      lifted (ok b, k) h = h
      lifted (threw, k) h = tt
      lifted (fault, k) h = tt

module _ {D F : Type 0} (nfc : Libnfc D) (float : FloatUnit F) (world : World F) where
  serve-Ends : Ends own (serve nfc float world)
  unfolding serve is_sos is_debit is_conso
  serve-Ends r =
      then_Gives (λ admin r. admin ≡ true → HasAdmin r.desk) (Leaves own) _
        (λ admin.
          look-Answers own admin (on_desk is_sos) _
            (on_desk-Looks is_sos (test_card-Looks (codes "SOS")))
            (λ sos.
              look-Answers own admin (on_desk is_conso) _
                (on_desk-Looks is_conso (test_card-Looks (codes "CONSO")))
                (λ conso.
                  look-Answers own admin (on_desk is_debit) _
                    (on_desk-Looks is_debit (test_card-Looks (codes "DEBIT")))
                    (λ debit.
                      look-Answers own admin (gets (λ r. r.ticket)) _ (λ r. refl)
                        (λ ticket.
                          look-Answers own admin (on_desk has_ticket) _
                            (on_desk-Looks has_ticket has_ticket-Looks)
                            (λ has.
                              last-Answers own admin
                                (by_kind nfc float world sos conso debit (ticket && has))))))))
        (on_desk is_admin r) (admin_Gives r)

  take_card-Ends : Ends own (take_card nfc float world)
  unfolding take_card
  take_card-Ends r =
      if-Ends own (is_held r.desk.card) _ (pure Next.again)
        (after-Ends own (if r.desk.read then pure true else load nfc float world) _ (λ loaded.
          if-Ends own loaded (serve nfc float world) (pure Next.again) serve-Ends (again-Ends own)))
        (again-Ends own) r

  search_card-Ends : Ends own (search_card nfc float world)
  unfolding search_card
  search_card-Ends r = after_Gives (Leaves own) _ (λ u. take_card-Ends) _

  look_again-Ends : Ends own (look_again nfc float world)
  unfolding look_again
  look_again-Ends = after-Ends own (on_desk (still_there nfc)) _ (λ there.
      if-Ends own there (pure Next.again) (search_card nfc float world) (again-Ends own)
        search_card-Ends)

  attend-Ends : Ends own (attend nfc float world)
  unfolding attend
  attend-Ends r =
      let desk = record r.desk { ticks = suc r.desk.ticks; strokes = suc r.desk.strokes } in
      after-Ends own (by_key (world.times r.desk.ticks) (world.keys r.desk.strokes)) _
        (λ u r.
          if-Ends own (is_held r.desk.card) (look_again nfc float world)
            (search_card nfc float world) look_again-Ends search_card-Ends r)
        (record r { desk = desk })

  -- A round that returns has met an ADMIN card.
  pub kve_round-Ends : Ends own (kve_round nfc float world)
  unfolding kve_round
  kve_round-Ends = caught-Ends own (attend nfc float world) attend-Ends

  -- An ADMIN card is in hand.
  pub serve_admin :
      (r : KveRun D F) (b0 : Block) (rest : List Block)
      → Holds r.desk (b0 ∷ rest)
      → c_string (memory b0) ≡ codes "ADMIN"
      → serve nfc float world r ≡ (ok (Next.returns true), record r { desk = in_admin r.desk })
  unfolding serve is_sos is_conso is_debit has_ticket
  serve_admin r b0 rest holds named =
      let (first, is) = is_admin_lem r.desk b0 rest holds named in
      rw (first, is (codes "SOS"), is (codes "CONSO"), is (codes "DEBIT"), is (codes "DEBIT")) refl
