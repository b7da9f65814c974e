-- ===== src/Tests/CreditCases.antt =====
-- Tests and witnesses: credit on the tag.
use programme_bee_gadz.Common.{◌≡◌, refl, ok, true, take, pos}
use programme_bee_gadz.Card.Sectors.{read_sector}
use programme_bee_gadz.Mode.Members.{Desk, on_card}
use programme_bee_gadz.Mode.OnTag.{CardStands}
use programme_bee_gadz.Mode.{get_credit, has_ticket, get_ticket}
use programme_bee_gadz.Admin.{create_conso, set_ticket}
use programme_bee_gadz.Admin.OnTag.{create_conso_read_again, set_ticket_read_again}
use programme_bee_gadz.Bar.{decrement_credit, get_conso_id}
use programme_bee_gadz.Bar.OnTag.Again.{credit_read_again}
use programme_bee_gadz.Caisse.{increment_credit}
use programme_bee_gadz.Caisse.OnTag.{paid_after_recharge}
use programme_bee_gadz.Tests.Desks.{
  Cents, of_value, cents, cents-IsFloatUnit, named_block, ticket_block, blank, with_blocks, desk_on,
}
use programme_bee_gadz.Tests.ClassicCases.{
  Slot, slot, content, key, uid, standing, standing-IsMifare, card_blocks, sector_one,
  changed_block, held-IsClassicCard,
}

abbrev desk : Desk Slot Cents
desk = desk_on slot sector_one

desk-CardStands : CardStands content key uid (content slot) card_blocks desk
desk-CardStands = (
  with_blocks sector_one,
  refl,
  record { card = held-IsClassicCard; memory = refl; on_tag = λ n. refl },
)

-- The card of another mode, before the tag as the payment leaves it: its memory is old.
abbrev later : Desk Slot Cents
later = desk_on (decrement_credit standing cents (of_value 150) desk).1.env.device sector_one

later-CardStands :
    CardStands content key uid
      (content (decrement_credit standing cents (of_value 150) desk).1.env.device)
      card_blocks
      later
later-CardStands = (
  with_blocks sector_one,
  refl,
  record { card = held-IsClassicCard; memory = refl; on_tag = λ n. refl },
)

-- 5.00 less 1.50
credit_read_again_example :
    (cents.of_memory
        (take 4 (content (decrement_credit standing cents (of_value 150) desk).1.env.device 5))
      ≡ of_value 350)
    × ((on_card (read_sector standing 1) later).0 ≡ ok true)
    × (get_credit cents (on_card (read_sector standing 1) later).1
        ≡ (ok (of_value 350), (on_card (read_sector standing 1) later).1))
credit_read_again_example =
    credit_read_again standing-IsMifare cents cents-IsFloatUnit (of_value 150) desk card_blocks
      named_block changed_block ticket_block blank refl (λ e. cc) refl refl refl desk-CardStands
      refl refl later card_blocks later-CardStands

-- The card before the tag as the recharge and the payment leave it.
abbrev at_last : Desk Slot Cents
at_last =
    desk_on
      (decrement_credit standing cents (of_value 150)
        (increment_credit standing cents (of_value 200) desk).1).1.env.device
      sector_one

at_last-CardStands :
    CardStands content key uid
      (content
        (decrement_credit standing cents
          (of_value 150)
          (increment_credit standing cents (of_value 200) desk).1).1.env.device)
      card_blocks
      at_last
at_last-CardStands = (
  with_blocks sector_one,
  refl,
  record { card = held-IsClassicCard; memory = refl; on_tag = λ n. refl },
)

-- 5.00 and 2.00, less 1.50
paid_after_recharge_example :
    (cents.of_memory (
        take 4 (
          content
            (decrement_credit standing cents
              (of_value 150)
              (increment_credit standing cents (of_value 200) desk).1).1.env.device
            5))
      ≡ of_value 550)
    × ((on_card (read_sector standing 1) at_last).0 ≡ ok true)
    × (get_credit cents (on_card (read_sector standing 1) at_last).1
        ≡ (ok (of_value 550), (on_card (read_sector standing 1) at_last).1))
paid_after_recharge_example =
    paid_after_recharge standing-IsMifare cents cents-IsFloatUnit (of_value 200) (of_value 150) desk
      card_blocks named_block changed_block ticket_block blank refl (λ e. cc) refl refl refl
      desk-CardStands refl refl refl at_last card_blocks at_last-CardStands

-- The card before the tag as `createConso` and as `setTicket` leave it.
abbrev made : Desk Slot Cents
made = desk_on (create_conso standing 1 desk).1.env.device sector_one

made-CardStands :
    CardStands content key uid
      (content (create_conso standing 1 desk).1.env.device)
      card_blocks
      made
made-CardStands = (
  with_blocks sector_one,
  refl,
  record { card = held-IsClassicCard; memory = refl; on_tag = λ n. refl },
)

create_conso_read_again_example :
    ((create_conso standing 1 desk).0 ≡ ok tt)
    × ((on_card (read_sector standing 1) made).0 ≡ ok true)
    × (get_conso_id (on_card (read_sector standing 1) made).1
        ≡ (ok (pos 1), (on_card (read_sector standing 1) made).1))
create_conso_read_again_example =
    create_conso_read_again standing-IsMifare 1 desk card_blocks named_block changed_block
      ticket_block blank refl (λ e. cc) refl refl desk-CardStands made card_blocks made-CardStands

abbrev ticketed : Desk Slot Cents
ticketed = desk_on (set_ticket standing 0 desk).1.env.device sector_one

ticketed-CardStands :
    CardStands content key uid
      (content (set_ticket standing 0 desk).1.env.device)
      card_blocks
      ticketed
ticketed-CardStands = (
  with_blocks sector_one,
  refl,
  record { card = held-IsClassicCard; memory = refl; on_tag = λ n. refl },
)

set_ticket_read_again_example :
    ((set_ticket standing 0 desk).0 ≡ ok tt)
    × ((on_card (read_sector standing 1) ticketed).0 ≡ ok true)
    × (has_ticket (on_card (read_sector standing 1) ticketed).1
        ≡ (ok true, (on_card (read_sector standing 1) ticketed).1))
    × (get_ticket (on_card (read_sector standing 1) ticketed).1
        ≡ (ok 0, (on_card (read_sector standing 1) ticketed).1))
set_ticket_read_again_example =
    set_ticket_read_again standing-IsMifare 0 desk card_blocks named_block changed_block
      ticket_block blank refl (λ e. cc) refl refl refl (λ e. refl) desk-CardStands ticketed
      card_blocks ticketed-CardStands
