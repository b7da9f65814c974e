-- ===== src/Tests/VisitCases.antt =====
-- Tests and witnesses: whole rounds of the loop of the bar, with a tag that is laid on the reader.
use programme_bee_gadz.Common.{
  ℕ, ◌≡◌, ◌≢◌, refl, false, none, [], ◌∷◌, ok, take, replicate, codes, ◌==◌, if◌then◌else◌, inl,
  inr, pos, same_text, arith,
}
use programme_bee_gadz.Card.Tag.Fresh.{IsFound}
use programme_bee_gadz.Mode.Members.{World, Desk}
use programme_bee_gadz.Mode.Reader.{Next}
use programme_bee_gadz.Config.{get_conso}
use programme_bee_gadz.Bar.{BarRun, price_from, get_price}
use programme_bee_gadz.Bar.Round.{bar_round}
use programme_bee_gadz.Bar.Visit.{IsLaid}
use programme_bee_gadz.Bar.Visit.Paid.{orders_are_paid}
use programme_bee_gadz.Bar.Visit.Dropped.{dropped_orders_are_free}
use programme_bee_gadz.Bar.Visit.Paying.{receipts}
use programme_bee_gadz.Mode.Aside.{history_line}
use programme_bee_gadz.Caisse.{caisse_round}
use programme_bee_gadz.Caisse.Visit.{sum_is_put_on_card}
use programme_bee_gadz.Kve.{KveRun, kve_round}
use programme_bee_gadz.Kve.Visit.{price_is_paid}
use programme_bee_gadz.Tests.Reader.{target}
use programme_bee_gadz.Tests.Desks.{
  Cents, of_value, cents, cents-IsFloatUnit, named_block, credit_block, ticket_block, config,
  desk_on,
}
use programme_bee_gadz.Mifare.{Libnfc, Target}
use programme_bee_gadz.Card.Tag.{IsMifare}
use programme_bee_gadz.Bar.Visit.Both.{with_device, ordered_and_paid}
use programme_bee_gadz.Tests.ClassicCases.{
  Slot, content, opened, key, standing, standing-IsMifare, reader_of, reader_of-IsMifare,
}

-- A DEBIT card with 5.00 and a ticket for drink 1
abbrev slot : Slot
slot = record {
  open_sector = none;
  cells = λ n.
      if n == 4
      then named_block.data_bytes
      else if n == 5
      then credit_block.data_bytes
      else if n == 6
      then ticket_block.data_bytes
      else replicate 16 0;
}

-- A CONSO card for drink 0
abbrev conso_slot : Slot
conso_slot = record {
  open_sector = none;
  cells = λ n. if n == 4 then 67 ∷ 79 ∷ 78 ∷ 83 ∷ 79 ∷ replicate 11 0 else replicate 16 0;
}

abbrev pub world : World Cents
world = record {
  times = λ n. 1000;
  keys = λ n. none;
  choices = λ n. 0;
  amounts = λ n. of_value 0;
  raw = replicate 16 0;
}

-- Two drinks of kind 0 are ordered, and no card is on the reader.
abbrev bar : BarRun Slot Cents
bar = record {
  desk = record (desk_on slot []) { card = none; read = false };
  conso = (0, 2) ∷ [];
  time = 995;
}

pub standing-IsFound : IsFound standing content target
standing-IsFound = record {
  mode = λ d. (_, d, refl, λ n. refl);
  selected = λ d. (0, d, refl, λ n. refl);
}

bar-IsLaid : IsLaid standing content key target world bar
bar-IsLaid = record {
  known = refl;
  four = refl;
  raw = refl;
  free = inl refl;
  keys = refl;
  six = refl;
  calm = inr (record { no_key = refl; young = λ n. omega arith });
}

-- 5.00 less two drinks of 1.50
orders_are_paid_example :
    ((bar_round standing cents world bar).0 ≡ ok Next.again)
    × ((bar_round standing cents world bar).1.conso ≡ [])
    × (cents.of_memory (take 4 (content (bar_round standing cents world bar).1.desk.env.device 5))
        ≡ of_value 200)
    × ((m : ℕ)
        → m ≢ 5
        → content (bar_round standing cents world bar).1.desk.env.device m ≡ content slot m)
    × ((bar_round standing cents world bar).1.desk.requests ≡ receipts cents config bar.conso [])
unfolding get_price price_from get_conso
orders_are_paid_example =
    orders_are_paid standing-IsFound standing-IsMifare cents cents-IsFloatUnit world bar bar-IsLaid
      refl refl refl (inr refl) refl refl (record { enough = refl; left = refl })

-- Nothing is paid: the orders of drinks are from long before.
dropped_orders_are_free_example :
    ((bar_round standing cents world (record bar { time = 0 })).0 ≡ ok Next.again)
    × ((bar_round standing cents world (record bar { time = 0 })).1.conso ≡ [])
    × ((n : ℕ)
        → content (bar_round standing cents world (record bar { time = 0 })).1.desk.env.device n
          ≡ content slot n)
    × ((bar_round standing cents world (record bar { time = 0 })).1.desk.requests ≡ [])
dropped_orders_are_free_example =
    dropped_orders_are_free standing-IsFound standing-IsMifare cents world (record bar { time = 0 })
      (record { known = refl; four = refl; raw = refl; nothing = refl; keys = refl; six = refl })
      refl (inr (λ n. omega arith)) refl

abbrev other_target : Target
other_target = record target { uid = 1 ∷ 2 ∷ 3 ∷ 4 ∷ [] }

-- The tag `other_target` is found by its own UID only.
abbrev other : Libnfc Slot
other = reader_of other_target (λ uid. if same_text uid (take 4 target.uid) then pos 0 else pos 1)

other-IsMifare : IsMifare other content opened key (take 4 other_target.uid)
other-IsMifare =
    reader_of-IsMifare other_target
      (λ uid. if same_text uid (take 4 target.uid) then pos 0 else pos 1) (take 4 other_target.uid)

other-IsFound : IsFound other content other_target
other-IsFound = record {
  mode = λ d. (_, d, refl, λ n. refl);
  selected = λ d. (0, d, refl, λ n. refl);
}

-- The clock stands at 5.
abbrev early : World Cents
early = record world { times = λ n. 5 }

-- One drink is ordered; a CONSO card for drink 0 is laid on the reader.
abbrev opened_bar : BarRun Slot Cents
opened_bar = record {
  desk = record (desk_on conso_slot []) { card = none; read = false };
  conso = (0, 1) ∷ [];
  time = 0;
}

-- 5.00 less two drinks of 1.50
ordered_and_paid_example :
    (b : BarRun Slot Cents) × (bar_round other cents early
        (with_device slot (bar_round standing cents early opened_bar).1)
      ≡ (ok Next.again, b))
    × (b.conso ≡ [])
    × (cents.of_memory (take 4 (content b.desk.env.device 5)) ≡ of_value 200)
    × ((m : ℕ) → m ≢ 5 → content b.desk.env.device m ≡ content slot m)
    × (b.desk.requests ≡ receipts cents config ((0, 2) ∷ []) [])
unfolding get_price price_from get_conso
ordered_and_paid_example =
    ordered_and_paid standing-IsFound standing-IsMifare other-IsFound other-IsMifare
      (λ d. (pos 0, other_target, d, refl, refl, λ n. refl)) cents cents-IsFloatUnit early early
      opened_bar slot
      (record {
        known = refl;
        four = refl;
        raw = refl;
        free = inl refl;
        keys = refl;
        six = refl;
        calm = inr (record { no_key = refl; young = λ n. omega arith });
      })
      refl refl refl refl refl (inr (record { no_key = refl; young = λ n. omega arith })) refl refl
      refl (inr refl) refl (record { enough = refl; left = refl })

-- 2.00 is typed; the DEBIT card is laid on the reader of the caisse.
abbrev typed : World Cents
typed = record world { amounts = λ n. of_value 200 }

abbrev caisse : Desk Slot Cents
caisse = record (desk_on slot []) { card = none; read = false }

-- 5.00 and 2.00
sum_is_put_on_card_example :
    ((caisse_round standing cents typed caisse).0 ≡ ok Next.again)
    × (cents.of_memory (take 4 (content (caisse_round standing cents typed caisse).1.env.device 5))
        ≡ of_value 700)
    × ((m : ℕ)
        → m ≢ 5
        → content (caisse_round standing cents typed caisse).1.env.device m ≡ content slot m)
    × ((caisse_round standing cents typed caisse).1.requests
        ≡ history_line cents (codes "bar") (codes "DEBIT") (of_value 200) ∷ [])
sum_is_put_on_card_example =
    sum_is_put_on_card standing-IsFound standing-IsMifare cents cents-IsFloatUnit typed caisse
      (record { known = refl; four = refl; raw = refl; nothing = refl; keys = refl; six = refl })
      refl refl refl (record { small = refl; something = refl })

-- 2.00 is typed, and a ticket is not asked for.
abbrev kve : KveRun Slot Cents
kve = record { desk = caisse; ticket = false; time = 995 }

-- 5.00 less 2.00
price_is_paid_example :
    ((kve_round standing cents typed kve).0 ≡ ok Next.again)
    × ((kve_round standing cents typed kve).1.ticket ≡ false)
    × (cents.of_memory (take 4 (content (kve_round standing cents typed kve).1.desk.env.device 5))
        ≡ of_value 300)
    × ((m : ℕ)
        → m ≢ 5
        → content (kve_round standing cents typed kve).1.desk.env.device m ≡ content slot m)
    × ((kve_round standing cents typed kve).1.desk.requests
        ≡ history_line cents (codes "bar") (codes "KVE") (of_value 200) ∷ [])
price_is_paid_example =
    price_is_paid standing-IsFound standing-IsMifare cents cents-IsFloatUnit typed kve
      (record {
        known = refl;
        four = refl;
        raw = refl;
        nothing = refl;
        keys = refl;
        six = refl;
        no_key = refl;
      })
      refl refl (inl refl) (record { enough = refl; left = refl })
