-- ===== src/Bar/Leaving.antt =====
-- How a round of `Bar::run` (src/bar.cpp) returns: by an ADMIN card.
use programme_bee_gadz.Common.{
  ◌≡◌, refl, ap, Bool, true, false, Action, Result, ok, threw, fault, pure, if◌then◌else◌, codes,
  gets, ℕ, suc, List, ◌∷◌,
}
use programme_bee_gadz.Mifare.{Libnfc}
use programme_bee_gadz.Mode.{is_admin, is_sos, is_debit, is_conso, print}
use programme_bee_gadz.Mode.Members.{FloatUnit, World, Desk}
use programme_bee_gadz.Mode.Reader.{Next, is_held, fetch_card, set_read, still_there}
use programme_bee_gadz.Block.{Block, memory}
use programme_bee_gadz.Mode.{c_string}
use programme_bee_gadz.Mode.Memory.{Holds}
use programme_bee_gadz.Mode.Leaving.{
  Gives, then_Gives, HasAdmin, Leaves, Ends, again-Ends, after-Ends, if-Ends, caught-Ends, Looks,
  look-Answers, last-Answers,
}
use programme_bee_gadz.Mode.Leaving.Answering.{
  test_card-Looks, is_admin-Gives, in_admin, is_admin_lem,
}
use programme_bee_gadz.Bar.{BarRun, is_empty, on_desk}
use programme_bee_gadz.Bar.Round.{
  by_key, by_time, card_gone, by_kind, serve, load, take_card, look_again, attend, bar_round,
}

module _ {D F : Type 0} where
  abbrev own : BarRun D F → Desk D F
  own r = r.desk

  on_desk-Looks :
      {A : Type 0} (m : Action (Desk D F) A) → Looks m → Looks {S = BarRun D F} (on_desk m)
  on_desk-Looks m looks r = ap (λ k. record r { desk = k }) (looks r.desk)

  admin_Gives :
      (r : BarRun D F) → Gives (λ admin r. admin ≡ true → HasAdmin r.desk) (on_desk is_admin r)
  admin_Gives r = lifted (is_admin r.desk) (is_admin-Gives r.desk)
    where
      lifted :
          (x : Result Bool × Desk D F)
          → Gives (λ admin k. admin ≡ true → HasAdmin k) x
          → Gives (λ admin r. admin ≡ true → HasAdmin r.desk) (x.0, record r { desk = x.1 })
      lifted (ok b, k) h = h
      lifted (threw, k) h = tt
      lifted (fault, k) h = tt

module _ {D F : Type 0} (nfc : Libnfc D) (float : FloatUnit F) (world : World F) where
  serve-Ends : (timer : ℕ) → Ends own (serve nfc float world timer)
  unfolding serve is_sos is_debit is_conso
  serve-Ends timer b =
      then_Gives (λ admin b. admin ≡ true → HasAdmin b.desk) (Leaves own) _
        (λ admin.
          look-Answers own admin (on_desk is_sos) _
            (on_desk-Looks is_sos (test_card-Looks (codes "SOS")))
            (λ sos.
              look-Answers own admin (on_desk is_debit) _
                (on_desk-Looks is_debit (test_card-Looks (codes "DEBIT")))
                (λ debit.
                  look-Answers own admin (on_desk is_conso) _
                    (on_desk-Looks is_conso (test_card-Looks (codes "CONSO")))
                    (λ conso.
                      look-Answers own admin (gets (λ b. b.conso)) _ (λ b. refl)
                        (λ orders.
                          last-Answers own admin
                            (by_kind nfc float world timer sos debit conso (is_empty orders)))))))
        (on_desk is_admin b) (admin_Gives b)

  take_card-Ends : (timer : ℕ) → Ends own (take_card nfc float world timer)
  unfolding take_card
  take_card-Ends timer b =
      if-Ends own (is_held b.desk.card) _ (pure Next.again)
        (after-Ends own (if b.desk.read then pure true else load nfc float world timer) _ (λ loaded.
          if-Ends own loaded (serve nfc float world timer) (pure Next.again) (serve-Ends timer)
            (again-Ends own)))
        (again-Ends own) b

  look_again-Ends : (timer : ℕ) → Ends own (look_again nfc float world timer)
  unfolding look_again
  look_again-Ends timer = after-Ends own (on_desk (still_there nfc)) _ (λ there.
      if-Ends own there (pure Next.again) _ (again-Ends own) (
        after-Ends own (card_gone timer) _ (λ u.
          after-Ends own (on_desk (fetch_card nfc world false)) _
            (λ u. after-Ends own (on_desk (set_read false)) _ (λ u. take_card-Ends timer)))))

  attend-Ends : Ends own (attend nfc float world)
  unfolding attend
  attend-Ends b =
      let desk = record b.desk { ticks = suc b.desk.ticks; strokes = suc b.desk.strokes } in
      let timer = world.times b.desk.ticks in
      after-Ends own (by_key timer (world.keys b.desk.strokes)) _
        (λ u. after-Ends own (by_time timer) _ (λ u b.
          if-Ends own (is_held b.desk.card) (look_again nfc float world timer) _
            (look_again-Ends timer)
            (after-Ends own (on_desk (set_read false)) _ (λ u.
              after-Ends own (on_desk (fetch_card nfc world false)) _ (λ u. take_card-Ends timer)))
            b))
        (record b { desk = desk })

  -- A round that returns has met an ADMIN card.
  pub bar_round-Ends : Ends own (bar_round nfc float world)
  unfolding bar_round
  bar_round-Ends =
      after-Ends own (on_desk (print world)) _
        (λ u. caught-Ends own (attend nfc float world) attend-Ends)

  -- An ADMIN card is in hand.
  pub serve_admin :
      (timer : ℕ) (b : BarRun D F) (b0 : Block) (rest : List Block)
      → Holds b.desk (b0 ∷ rest)
      → c_string (memory b0) ≡ codes "ADMIN"
      → serve nfc float world timer b
        ≡ (ok (Next.returns true), record b { desk = in_admin b.desk })
  unfolding serve is_sos is_conso is_debit
  serve_admin timer b b0 rest holds named =
      let (first, is) = is_admin_lem b.desk b0 rest holds named in
      rw (first, is (codes "SOS"), is (codes "DEBIT"), is (codes "CONSO")) refl
