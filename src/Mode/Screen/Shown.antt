-- ===== src/Mode/Screen/Shown.antt =====
-- The lines that `Mode::setCommand` queues for the screen are shown one after the other by `Mode::print`
-- (src/mode.cpp).
use programme_bee_gadz.Common.{
  ℕ, zero, suc, ◌+◌, ◌≤◌, ◌<◌, ◌≡◌, ◌⊎◌, refl, ap, ◌∙◌, true, false, none, some, List, [], ◌∷◌,
  ◌++◌, arith, length, get_or, if◌then◌else◌, Bool-cases, Option-cases, inl, inr, le→leb, lt→ltb,
  ◌==◌,
}
use programme_bee_gadz.Mode.{is_over, print}
use programme_bee_gadz.Mode.Members.{Line, World, Desk}
use programme_bee_gadz.Mode.Screen.Lcd.{lcd_script, Emits, print-Grew, print-Emits}
use programme_bee_gadz.Mode.Screen.{shown_at, front_step, queue_step, print_step}

-- `n` calls of `print`, one after the other
unfoldable pub prints : {D F : Type 0} → World F → ℕ → Desk D F → Desk D F
prints world zero k = k
prints world (suc n) k = (print world (prints world n k)).1

-- From some reading on, the clock is past any time.
abbrev pub IsPassing : (ℕ → ℕ) → Type 0
IsPassing times = (b : ℕ) → (i : ℕ) × ((j : ℕ) → i ≤ j → b ≤ times j)

module _ {D F : Type 0} (world : World F) (k : Desk D F) (four : length k.screen ≡ 4) (j : ℕ)
    (low : j < 4) where
  queue : ℕ → List Line
  queue n = get_or (prints world n k).screen j []

  timer : ℕ → ℕ
  timer n = world.times (prints world n k).ticks

  prints_lem : (n : ℕ) → (length (prints world n k).screen ≡ 4) × (n ≤ (prints world n k).ticks)
  unfolding prints
  prints_lem zero = (four, omega arith)
  prints_lem (suc n) =
      let (size, ticks) = prints_lem n in
      let (done, later, size', t, step) = print_step world (prints world n k) size j low in
      (size', omega arith)

  queue-suc : (n : ℕ) → (t : ℕ) × (queue (suc n) ≡ queue_step (timer n) t (queue n))
  unfolding prints queue timer
  queue-suc n =
      let (size, ticks) = prints_lem n in
      let (done, later, size', t, step) = print_step world (prints world n k) size j low in
      (world.times t, step)

  -- A line on the LCD goes, or stays, in a call of `print`.
  goes_or_stays :
      (n printed : ℕ) (l m : Line) (rest : List Line)
      → l.printed ≡ some printed
      → queue n ≡ l ∷ m ∷ rest
      → (queue (suc n) ≡ m ∷ rest)
        ⊎ ((is_over (timer n) l printed (m ∷ rest) ≡ false) × (queue (suc n) ≡ l ∷ m ∷ rest))
  goes_or_stays n printed l m rest seen at =
      let (t, step) = queue-suc n in
      let front : queue_step (timer n) t (queue n)
          ≡ (if is_over (timer n) l printed (m ∷ rest) then m ∷ rest else l ∷ m ∷ rest) =
        ap (queue_step (timer n) t) at ∙ ap (λ o. front_step (timer n) t o l (m ∷ rest)) seen in
      elim (Bool-cases (is_over (timer n) l printed (m ∷ rest))) [
        | inl over ↦ inl (step ∙ front ∙ rw over refl)
        | inr stays ↦ inr (stays, step ∙ front ∙ rw stays refl)
      ]

  -- It goes at the latest when its time is over.
  over_then :
      (n i printed : ℕ) (l m : Line) (rest : List Line)
      → i ≤ n
      → ((j : ℕ) → i ≤ j → printed + l.time ≤ world.times j)
      → is_over (timer n) l printed (m ∷ rest) ≡ true
  unfolding timer
  over_then n i printed l m rest near past =
      let (size, ticks) = prints_lem n in
      let late = past (prints world n k).ticks (omega arith) in
      elim (Bool-cases (l.time == 0)) [
        | inl untimed ↦ rw untimed (lt→ltb 1 (suc (suc (length rest))) (omega arith))
        | inr timed ↦
            rw timed (le→leb (printed + l.time) (world.times (prints world n k).ticks) late)
      ]

  waits :
      (d n i printed : ℕ) (l m : Line) (rest : List Line)
      → l.printed ≡ some printed
      → queue n ≡ l ∷ m ∷ rest
      → i ≤ n + d
      → ((j : ℕ) → i ≤ j → printed + l.time ≤ world.times j)
      → (n' : ℕ) × (queue n' ≡ m ∷ rest)
  waits zero n i printed l m rest seen at near past =
      elim (goes_or_stays n printed l m rest seen at) [
        | inl gone ↦ (suc n, gone)
        | inr (stays, same) ↦ (let over = over_then n i printed l m rest (omega arith) past in cc)
      ]
  waits (suc d) n i printed l m rest seen at near past =
      elim (goes_or_stays n printed l m rest seen at) [
        | inl gone ↦ (suc n, gone)
        | inr (stays, same) ↦ waits d (suc n) i printed l m rest seen same (omega arith) past
      ]

  module _ (passing : IsPassing world.times) where
    -- The line in front goes, and the one behind it is in front.
    next_line :
        (n : ℕ) (l m : Line) (rest : List Line)
        → queue n ≡ l ∷ m ∷ rest
        → (n' : ℕ) × (queue n' ≡ m ∷ rest)
    next_line n l m rest at = elim (Option-cases l.printed) [
      | inr (printed, seen) ↦
          let (i, past) = passing (printed + l.time) in
          waits i n i printed l m rest seen at (omega arith) past
      | inl unseen ↦
          let (t, step) = queue-suc n in
          let shown : queue (suc n) ≡ shown_at t l ∷ m ∷ rest =
            step
            ∙ ap (queue_step (timer n) t) at
            ∙ ap (λ o. front_step (timer n) t o l (m ∷ rest)) unseen in
          let (i, past) = passing (t + l.time) in
          waits i (suc n) i t (shown_at t l) m rest refl shown (omega arith) past
    ]

    reaches :
        (n : ℕ) (before : List Line) (m : Line) (after : List Line)
        → queue n ≡ before ++ (m ∷ after)
        → (n' : ℕ) × (queue n' ≡ m ∷ after)
    reaches n [] m after at = (n, at)
    reaches n (l ∷ []) m after at = next_line n l m after at
    reaches n (l ∷ l' ∷ before) m after at =
        let (n', at') = next_line n l l' (before ++ (m ∷ after)) at in
        reaches n' (l' ∷ before) m after at'

-- There is an LCD after any calls as there was before.
prints-has_lcd :
    {D F : Type 0} (world : World F) (k : Desk D F) (n : ℕ)
    → (prints world n k).env.printer.has_lcd ≡ k.env.printer.has_lcd
unfolding prints
prints-has_lcd world k zero = refl
prints-has_lcd world k (suc n) =
    let grew = print-Grew world (prints world n k) in grew.lcd ∙ prints-has_lcd world k n

-- Every line that waits in a queue of the screen is shown by some call of `print`, with a clock that passes
-- any time: after that call it is the one in front, with the time at which it was shown, and, where there is
-- an LCD, the call has sent it the command that puts the line's text on the LCD's line for the queue.
pub line_is_shown :
    {D F : Type 0} (world : World F) (k : Desk D F)
    → length k.screen ≡ 4
    → (j : ℕ) → j < 4
    → IsPassing world.times
    → (before : List Line) (l : Line) (after : List Line)
    → get_or k.screen j [] ≡ before ++ (l ∷ after)
    → l.printed ≡ none
    → (n : ℕ) × (t : ℕ) × (get_or (prints world (suc n) k).screen j [] ≡ shown_at t l ∷ after)
      × ((k.env.printer.has_lcd ≡ false)
          ⊎ Emits
              (lcd_script l.message j)
              (prints world n k).env.printer
              (prints world (suc n) k).env.printer)
unfolding queue prints
line_is_shown world k four j low passing before l after at unseen =
    let (n, here) = reaches world k four j low passing 0 before l after at in
    let (t, step) = queue-suc world k four j low n in
    let (size, ticks) = prints_lem world k four j low n in
    (
      n,
      t,
      step
          ∙ ap (queue_step (timer world k four j low n) t) here
          ∙ ap (λ o. front_step (timer world k four j low n) t o l after) unseen,
      elim (Bool-cases k.env.printer.has_lcd) [
        | inr without ↦ inl without
        | inl lcd ↦ inr (
            print-Emits world (prints world n k) size j l after low here unseen
              (prints-has_lcd world k n ∙ lcd))
      ],
    )
