-- ===== src/Mode/Screen.antt =====
-- `Mode::print` (src/mode.cpp) as a step of each of the four queues of the screen.
pub mod Lcd
pub mod Shown
use programme_bee_gadz.Common.{
  ℕ, zero, suc, ◌+◌, ◌≤◌, ◌<◌, ◌≡◌, ◌≢◌, refl, sym, ap, ◌∙◌, Bool, true, false, Option, none, some,
  List, [], ◌∷◌, arith, ok, length, get_or, set, length-set, get_or-set_self, get_or-set_ne,
  if◌then◌else◌, ◌==◌, ==_iff, Bool-cases, Option-cases, inl, inr,
}
use programme_bee_gadz.Printer.{print_lcd, clear_line}
use programme_bee_gadz.Mode.{is_over, print_front, print_queue, print_from, print}
use programme_bee_gadz.Mode.Members.{Line, World, Desk}

-- The line once it has been put on the LCD
abbrev pub shown_at : ℕ → Line → Line
shown_at now l = record l { printed = some now }

-- What a call of `print` that began at `timer` makes of a queue, if it shows the queue's line at `now`.
abbrev pub front_step : ℕ → ℕ → Option ℕ → Line → List Line → List Line
front_step timer now none l more = shown_at now l ∷ more
front_step timer now (some printed) l more = if is_over timer l printed more then more else l ∷ more

abbrev pub queue_step : ℕ → ℕ → List Line → List Line
queue_step timer now [] = []
queue_step timer now (l ∷ more) = front_step timer now l.printed l more

module _ {D F : Type 0} (world : World F) (timer : ℕ) where
  -- What showing queue `i` does: it keeps the other queues, and time goes on.
  pub record Shows (i : ℕ) (q : List Line) (k k' : Desk D F) : Type 0 where
    pub ticks : k.ticks ≤ k'.ticks
    pub size : length k'.screen ≡ length k.screen
    pub here : get_or k'.screen i [] ≡ queue_step timer (world.times k.ticks) q
    pub others : (j : ℕ) → j ≢ i → get_or k'.screen j [] ≡ get_or k.screen j []

  pub print_queue_lem :
      (i : ℕ) (q : List Line) (k : Desk D F)
      → get_or k.screen i [] ≡ q
      → i < length k.screen
      → ((print_queue world timer i q k).0 ≡ ok tt) × Shows i q k (print_queue world timer i q k).1
  unfolding print_queue print_front
  print_queue_lem i [] k e inside =
      (refl, record { ticks = omega arith; size = refl; here = e; others = λ j other. refl })
  print_queue_lem i (l ∷ more) k e inside = elim (Option-cases l.printed) [
    | inl unseen ↦ rw unseen (
      refl,
      record {
        ticks = omega arith;
        size = length-set k.screen i _;
        here = get_or-set_self k.screen i _ [] inside;
        others = λ j other. get_or-set_ne k.screen i j _ [] (λ same. other (sym same));
      },
    )
    | inr (printed, seen) ↦ elim (Bool-cases (is_over timer l printed more)) [
      | inl over ↦
          rw (seen, over)
            (
              refl,
              record {
                ticks = omega arith;
                size = length-set k.screen i _;
                here = get_or-set_self k.screen i _ [] inside ∙ rw over refl;
                others = λ j other. get_or-set_ne k.screen i j _ [] (λ same. other (sym same));
              },
            )
      | inr stays ↦
          let waits : print_front world timer i (some printed) l more k ≡ (ok tt, k) =
            rw stays refl in
          let runs : print_queue world timer i (l ∷ more) k ≡ (ok tt, k) =
            ap (λ o. print_front world timer i o l more k) seen ∙ waits in
          let same : queue_step timer (world.times k.ticks) (l ∷ more) ≡ l ∷ more =
            ap (λ o. front_step timer (world.times k.ticks) o l more) seen
            ∙ ap (λ b. if b then more else l ∷ more) stays in
          rw runs (
            refl,
            record {
              ticks = omega arith;
              size = refl;
              here = e ∙ sym same;
              others = λ j other. refl;
            },
          )
    ]
  ]

  -- Queue `j` after `n` queues have been shown from queue `i` on, with the time at which it was.
  Stepped : (j i n : ℕ) → Desk D F → Desk D F → Type 0
  Stepped j i n k k' =
      (t : ℕ) × (k.ticks ≤ t)
      × (get_or k'.screen j [] ≡ queue_step timer (world.times t) (get_or k.screen j []))

  print_from_lem :
      (n i : ℕ) (k : Desk D F)
      → i + n ≤ length k.screen
      → ((print_from world timer n i k).0 ≡ ok tt)
        × (k.ticks ≤ (print_from world timer n i k).1.ticks)
        × (length (print_from world timer n i k).1.screen ≡ length k.screen)
        × ((j : ℕ)
            → j < i
            → get_or (print_from world timer n i k).1.screen j [] ≡ get_or k.screen j [])
        × ((j : ℕ) → i ≤ j → j < i + n → Stepped j i n k (print_from world timer n i k).1)
  unfolding print_from Stepped
  print_from_lem zero i k inside =
      (refl, (omega arith), refl, λ j low. refl, λ j low high. absurd (omega arith))
  print_from_lem (suc n) i k inside =
      let (done, shows) = print_queue_lem i (get_or k.screen i []) k refl (omega arith) in
      let k' = (print_queue world timer i (get_or k.screen i []) k).1 in
      let long = shows.size in
      let (ends, later, size, before, after) = print_from_lem n (suc i) k' (omega arith) in
      rw done (
        ends,
        omega (arith, shows.ticks),
        size ∙ long,
        λ j low. before j (omega arith) ∙ shows.others j (λ same. (omega arith)),
        λ j low high. elim (Bool-cases (j == i)) [
          | inl here ↦
              let same : j ≡ i = (==_iff j i).0 here in
              (k.ticks, omega arith, before j (omega arith) ∙ rw same shows.here)
          | inr later_on ↦
              let other : j ≢ i = λ same. (let here = (==_iff j i).1 same in cc) in
              let (t, past, step) = after j (omega arith) (omega arith) in
              (
                t,
                omega (arith, shows.ticks),
                step ∙ ap (queue_step timer (world.times t)) (shows.others j other),
              )
        ],
      )

-- A call of `print` with the four queues: it returns, reads the clock at least once, and each queue
-- makes one step, for the time at which the call began and one that was read in it.
pub print_step :
    {D F : Type 0} (world : World F) (k : Desk D F)
    → length k.screen ≡ 4
    → (j : ℕ) → j < 4
    → ((print world k).0 ≡ ok tt)
      × (k.ticks < (print world k).1.ticks)
      × (length (print world k).1.screen ≡ 4)
      × (t : ℕ) × (get_or (print world k).1.screen j []
          ≡ queue_step (world.times k.ticks) (world.times t) (get_or k.screen j []))
unfolding print Stepped
print_step {D} {F} world k four j low =
    let k' : Desk D F = record k { ticks = suc k.ticks } in
    let (done, ticks, size, before, after) =
      print_from_lem world (world.times k.ticks) 4 0 k' (omega arith) in
    let (t, past, step) = after j (omega arith) (omega arith) in
    (done, omega arith, size ∙ four, t, step)
