-- ===== src/Bar/Invariant/Runs.antt =====
-- The loop of `Bar::run` (src/bar.cpp) from its start: what any number of rounds make of the orders.
use programme_bee_gadz.Common.{ℕ, suc, ◌+◌, ◌^◌, ◌<◌, ◌≡◌, [], arith}
use programme_bee_gadz.Mifare.{Libnfc}
use programme_bee_gadz.Mode.Members.{FloatUnit, World}
use programme_bee_gadz.Bar.{BarRun}
use programme_bee_gadz.Bar.Round.{bar_round}
use programme_bee_gadz.Bar.Invariant.{HasRoom, no_orders}
use programme_bee_gadz.Bar.Invariant.Rounds.{bar_round-HasRoom}

module _ {D F : Type 0} (nfc : Libnfc D) (float : FloatUnit F) where
  -- The state after `n` rounds; each may find the world changed.
  pub data Run : ℕ → BarRun D F → Type 0 where
    began : (b : BarRun D F) → b.conso ≡ [] → Run 0 b
    round :
        {n : ℕ} {b : BarRun D F} (world : World F)
        → Run n b
        → Run (suc n) (bar_round nfc float world b).1

-- The loop of `Bar::run` from its start, over any rounds that fit a `size_t` in number: whatever the
-- reader, the keys and the clock do, and also where exceptions end rounds, every kind of drink stands
-- once in the orders, no number is zero, and none is higher than the number of rounds.
pub Run-HasRoom :
    {D F : Type 0} (nfc : Libnfc D) (float : FloatUnit F) {n : ℕ} {b : BarRun D F}
    → Run nfc float n b
    → n < 2 ^ 64
    → HasRoom n b.conso
Run-HasRoom nfc float (began b empty) small = rw empty (no_orders 0)
Run-HasRoom nfc float (round {n} {b} world r) small =
    let next : n + 1 ≡ suc n = omega arith in
    rw (← next)
      (bar_round-HasRoom nfc float world n b (omega arith) (Run-HasRoom nfc float r (omega arith)))
