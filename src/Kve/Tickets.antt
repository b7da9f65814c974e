-- ===== src/Kve/Tickets.antt =====
-- Tickets in `Kve::run` (src/kve.cpp): the drink that the history names.
use programme_bee_gadz.Common.{
  ℕ, ◌-◌, ◌==◌, ◌≡◌, ap, ◌∙◌, List, ◌∷◌, some, ok, codes, if◌then◌else◌, get_elem?,
}
use programme_bee_gadz.Block.{Block, memory}
use programme_bee_gadz.Mifare.{Libnfc}
use programme_bee_gadz.Mode.{c_string, get_ticket}
use programme_bee_gadz.Mode.Members.{Desk}
use programme_bee_gadz.Mode.Memory.{Holds}
use programme_bee_gadz.Mode.Kinds.{get_ticket_lem}
use programme_bee_gadz.Bar.{decrement_ticket}
use programme_bee_gadz.Bar.Money.{decrement_ticket_lem}

-- A DEBIT card with its blocks in memory, with `n` tickets for the drink `t`: after `decrementTicket`,
-- which `Kve::run` calls before it asks for the drink of the ticket, `getTicket` returns `t` as long as
-- tickets are left, and drink 0 after the last one.
pub ticket_after_use :
    {D F : Type 0} (nfc : Libnfc D) (k : Desk D F) (b0 b1 b2 : Block) (rest : List Block) {n t : ℕ}
    → Holds k (b0 ∷ b1 ∷ b2 ∷ rest)
    → c_string (memory b0) ≡ codes "DEBIT"
    → get_elem? b2.data_bytes 0 ≡ some n
    → get_elem? b2.data_bytes 1 ≡ some t
    → (get_ticket (decrement_ticket nfc k).1).0 ≡ ok (if n - 1 == 0 then 0 else t)
ticket_after_use nfc k b0 b1 b2 rest holds named first second =
    let (b2', after, number, others) = decrement_ticket_lem nfc k b0 b1 b2 rest holds first in
    ap (λ r. r.0)
      (get_ticket_lem (decrement_ticket nfc k).1 b0 b1 b2' rest after named number
        (others 0 ∙ second))
