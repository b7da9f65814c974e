-- ===== src/Mode/Screen/Lcd.antt =====
-- What `Mode::print` (src/mode.cpp) sends to the LCD.
use programme_bee_gadz.Common.{
  ℕ, zero, suc, ◌+◌, ◌≤◌, ◌<◌, ◌≡◌, ◌≢◌, refl, sym, ap, ◌∙◌, Bool, true, false, none, List, [], ◌∷◌,
  ◌++◌, arith, codes, length, get_or, ◌==◌, ==_iff, Bool-cases, Option-cases, inl, inr,
  if◌then◌else◌,
}
use mathlib.Core.List.{Memᴰ, append_assoc}
use mathlib.Core.List.Memᴰ
use mathlib.Core.Path.{subst}
use programme_bee_gadz.Printer.{Printer, Output, emit, run_script, print_lcd, clear_line}
use programme_bee_gadz.Printer.Numerals.{decimal_of}
use programme_bee_gadz.Mode.{is_over, print_front, print_queue, print_from, print}
use programme_bee_gadz.Mode.Members.{Line, World, Desk}
use programme_bee_gadz.Mode.Aside.{print_queue-Printed}
use programme_bee_gadz.Mode.Screen.{print_queue_lem}

-- The line of Python that puts a text on line `i + 1` of the LCD
abbrev pub lcd_script : List ℕ → ℕ → Output
lcd_script message i = Output.script (
    codes "lcd.lcd_display_string(\""
    ++ (message ++ (codes "\", " ++ (decimal_of (suc i) ++ codes ")"))))

-- The printer has sent more, and has an LCD or not as before.
pub record Grew (p p' : Printer) : Type 0 where
  pub lcd : p'.has_lcd ≡ p.has_lcd
  pub output : (new : List Output) × (p'.output ≡ new ++ p.output)

-- Among what the printer has sent in the meantime is `o`.
abbrev pub Emits : Output → Printer → Printer → Type 0
Emits o p p' = (new : List Output) × (p'.output ≡ new ++ p.output) × Memᴰ o new

pub Grew-refl : (p : Printer) → Grew p p
Grew-refl p = record { lcd = refl; output = ([], refl) }

pub Grew-trans : {p p' p'' : Printer} → Grew p p' → Grew p' p'' → Grew p p''
Grew-trans {p} v w =
    let (new, e) = v.output in
    let (new', e') = w.output in
    record {
      lcd = w.lcd ∙ v.lcd;
      output = (new' ++ new, e' ∙ ap (λ l. new' ++ l) e ∙ sym (append_assoc new' new p.output));
    }

pub Emits-then : {o : Output} (p p' p'' : Printer) → Emits o p p' → Grew p' p'' → Emits o p p''
Emits-then p p' p'' (new, e, m) w =
    let (new', e') = w.output in
    (
      new' ++ new,
      e' ∙ ap (λ l. new' ++ l) e ∙ sym (append_assoc new' new p.output),
      Memᴰ.append_right new' m,
    )

pub then_Emits : {o : Output} (p p' p'' : Printer) → Grew p p' → Emits o p' p'' → Emits o p p''
then_Emits p p' p'' v (new', e', m) =
    let (new, e) = v.output in
    (
      new' ++ new,
      e' ∙ ap (λ l. new' ++ l) e ∙ sym (append_assoc new' new p.output),
      Memᴰ.append_left new m,
    )

sent_if-Grew : (now : Bool) (o : Output) (p : Printer) → Grew p (if now then emit o p else p)
sent_if-Grew true o p = record { lcd = refl; output = (o ∷ [], refl) }
sent_if-Grew false o p = Grew-refl p

run_script-Grew : (text : List ℕ) (p : Printer) → Grew p (run_script text p)
run_script-Grew text p = sent_if-Grew p.has_lcd (Output.script text) p

run_script-Emits :
    (text : List ℕ) (p : Printer)
    → p.has_lcd ≡ true
    → Emits (Output.script text) p (run_script text p)
run_script-Emits text p e =
    subst (λ now. Emits (Output.script text) p (if now then emit (Output.script text) p else p))
      (sym e) (Output.script text ∷ [], refl, Memᴰ.head refl)

module _ {D F : Type 0} (world : World F) (timer : ℕ) where
  print_queue-Grew :
      (i : ℕ) (q : List Line) (k : Desk D F)
      → Grew k.env.printer (print_queue world timer i q k).1.env.printer
  unfolding print_queue print_front clear_line print_lcd
  print_queue-Grew i [] k = Grew-refl k.env.printer
  print_queue-Grew i (l ∷ more) k = elim (Option-cases l.printed) [
    | inl unseen ↦ rw unseen (Grew-trans (run_script-Grew _ k.env.printer) (run_script-Grew _ _))
    | inr (printed, seen) ↦ elim (Bool-cases (is_over timer l printed more)) [
      | inl over ↦ rw (seen, over) (run_script-Grew _ k.env.printer)
      | inr stays ↦ rw (seen, stays) (Grew-refl k.env.printer)
    ]
  ]

  -- A line that has not been shown yet is sent to the LCD.
  print_queue-Emits :
      (i : ℕ) (l : Line) (more : List Line) (k : Desk D F)
      → l.printed ≡ none
      → k.env.printer.has_lcd ≡ true
      → Emits
          (lcd_script l.message i)
          k.env.printer
          (print_queue world timer i (l ∷ more) k).1.env.printer
  unfolding print_queue print_front clear_line print_lcd
  print_queue-Emits i l more k unseen lcd =
      let cleared = clear_line (suc i) k.env.printer in
      let grew : Grew k.env.printer cleared = run_script-Grew _ k.env.printer in
      let sends = run_script-Emits _ cleared (grew.lcd ∙ lcd) in
      rw unseen (then_Emits k.env.printer cleared (print_lcd l.message (suc i) cleared) grew sends)

  print_from-Grew :
      (n i : ℕ) (k : Desk D F) → Grew k.env.printer (print_from world timer n i k).1.env.printer
  unfolding print_from
  print_from-Grew zero i k = Grew-refl k.env.printer
  print_from-Grew (suc n) i k =
      let q = get_or k.screen i [] in
      let (done, p) = print_queue-Printed world timer i q k in
      let k' = (print_queue world timer i q k).1 in
      rw done (Grew-trans (print_queue-Grew i q k) (print_from-Grew n (suc i) k'))

  print_from-Emits :
      (n i j : ℕ) (l : Line) (more : List Line) (k : Desk D F)
      → i + n ≤ length k.screen
      → i ≤ j
      → j < i + n
      → get_or k.screen j [] ≡ l ∷ more
      → l.printed ≡ none
      → k.env.printer.has_lcd ≡ true
      → Emits (lcd_script l.message j) k.env.printer (print_from world timer n i k).1.env.printer
  unfolding print_from
  print_from-Emits zero i j l more k inside low high at unseen lcd = absurd (omega arith)
  print_from-Emits (suc n) i j l more k inside low high at unseen lcd =
      let q = get_or k.screen i [] in
      let (done, shows) = print_queue_lem world timer i q k refl (omega arith) in
      let k' = (print_queue world timer i q k).1 in
      let grew = print_queue-Grew i q k in
      let size : length k'.screen ≡ length k.screen = shows.size in
      let last = (print_from world timer n (suc i) k').1.env.printer in
      elim (Bool-cases (j == i)) [
        | inl here ↦
            let same : i ≡ j = sym ((==_iff j i).0 here) in
            let front : q ≡ l ∷ more = ap (λ i. get_or k.screen i []) same ∙ at in
            let first =
              subst
                (λ q.
                  Emits (lcd_script l.message i) k.env.printer
                    (print_queue world timer i q k).1.env.printer)
                (sym front) (print_queue-Emits i l more k unseen lcd) in
            rw done (
              subst (λ j. Emits (lcd_script l.message j) k.env.printer last) same
                (Emits-then k.env.printer k'.env.printer last first (print_from-Grew n (suc i) k')))
        | inr later ↦
            let other : j ≢ i = λ same. (let here = (==_iff j i).1 same in cc) in
            let rest =
              print_from-Emits n (suc i) j l more k' (omega arith) (omega arith) (omega arith)
                (shows.others j other ∙ at) unseen (grew.lcd ∙ lcd) in
            rw done (then_Emits k.env.printer k'.env.printer last grew rest)
      ]

-- A call of `print` sends more, and the line in front of a queue if it has not been shown yet.
pub print-Grew :
    {D F : Type 0} (world : World F) (k : Desk D F)
    → Grew k.env.printer (print world k).1.env.printer
unfolding print
print-Grew world k =
    let grew = print_from-Grew world (world.times k.ticks) 4 0 (record k { ticks = suc k.ticks }) in
    record { lcd = grew.lcd; output = grew.output }

pub print-Emits :
    {D F : Type 0} (world : World F) (k : Desk D F)
    → length k.screen ≡ 4
    → (j : ℕ) (l : Line) (more : List Line) → j < 4
    → get_or k.screen j [] ≡ l ∷ more
    → l.printed ≡ none
    → k.env.printer.has_lcd ≡ true
    → Emits (lcd_script l.message j) k.env.printer (print world k).1.env.printer
unfolding print
print-Emits world k four j l more low at unseen lcd =
    print_from-Emits world (world.times k.ticks) 4 0 j l more (record k { ticks = suc k.ticks })
      (omega arith) (omega arith) (omega arith) at unseen lcd
