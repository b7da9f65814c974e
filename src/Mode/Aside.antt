-- ===== src/Mode/Aside.antt =====
-- What the steps of the modes (src/mode.cpp) leave alone: the configuration, the requests and the calls
-- from outside; and `Mode::print`, which leaves the card and the reader alone too.
use programme_bee_gadz.Common.{
  ℕ, zero, suc, ◌≡◌, refl, ap, ◌∙◌, Bool, true, false, Option, none, some, List, [], ◌∷◌, ok, threw,
  fault, Result, continue, handle, pure, if◌then◌else◌, Action, codes, ◌++◌, get_or, Bool-cases,
  Option-cases, inl, inr,
}
use programme_bee_gadz.Block.{Block}
use programme_bee_gadz.Mifare.{Libnfc}
use programme_bee_gadz.Card.State.{Card, Held}
use programme_bee_gadz.Card.Sectors.{write_sector}
use programme_bee_gadz.Mode.{write_card, is_over, print_front, print_queue, print_from, print}
use programme_bee_gadz.Mode.Members.{
  FloatUnit, Line, World, Desk, show_info, show_error, with_card, on_card,
}
use programme_bee_gadz.NfcDevice.{Env}
use programme_bee_gadz.Mode.OnTag.{CardStands}

-- What a step leaves alone, beside the card and the reader.
pub record Aside {D F : Type 0} (k k' : Desk D F) : Type 0 where
  pub config : k'.config ≡ k.config
  pub requests : k'.requests ≡ k.requests
  pub strokes : k'.strokes ≡ k.strokes
  pub read : k'.read ≡ k.read
  pub entries : k'.entries ≡ k.entries

module _ {D F : Type 0} where
  pub Aside-refl : (k : Desk D F) → Aside k k
  Aside-refl k = record {
    config = refl;
    requests = refl;
    strokes = refl;
    read = refl;
    entries = refl;
  }

  -- The other members may change.
  pub around :
      {k : Desk D F} {e : Env D} {screen : List (List Line)} {card : Option Card} {ticks picks : ℕ}
      → Aside k (record k { env = e; screen = screen; card = card; ticks = ticks; picks = picks })
  around = record { config = refl; requests = refl; strokes = refl; read = refl; entries = refl }

  pub Aside-trans : {k k' k'' : Desk D F} → Aside k k' → Aside k' k'' → Aside k k''
  Aside-trans v w = record {
    config = w.config ∙ v.config;
    requests = w.requests ∙ v.requests;
    strokes = w.strokes ∙ v.strokes;
    read = w.read ∙ v.read;
    entries = w.entries ∙ v.entries;
  }

  with_card-Aside :
      {A : Type 0} (o : Option Card) (m : Action (Held D) A) (k : Desk D F)
      → Aside k (with_card o m k).1
  with_card-Aside none m k = Aside-refl k
  with_card-Aside (some c) m k = around

  -- A call on the card leaves the rest alone.
  pub on_card-Aside : {A : Type 0} (m : Action (Held D) A) (k : Desk D F) → Aside k (on_card m k).1
  on_card-Aside m k = with_card-Aside k.card m k

module _ {D F : Type 0} where
  pub then_Aside :
      {A B : Type 0} (f : A → Action (Desk D F) B)
      → ((a : A) (k : Desk D F) → Aside k (f a k).1)
      → (k : Desk D F) (r : Result A × Desk D F) → Aside k r.1
      → Aside k (continue f r).1
  then_Aside f next k (ok a, k') v = Aside-trans v (next a k')
  then_Aside f next k (threw, k') v = v
  then_Aside f next k (fault, k') v = v

  caught_Aside :
      (k : Desk D F) (r : Result (Unit {0}) × Desk D F)
      → Aside k r.1
      → Aside k (handle (pure tt) r).1
  caught_Aside k (ok u, k') v = v
  caught_Aside k (threw, k') v = v
  caught_Aside k (fault, k') v = v

  pub write_card-Aside : (nfc : Libnfc D) (k : Desk D F) → Aside k (write_card nfc k).1
  unfolding write_card
  write_card-Aside nfc k =
      let k' = (show_info (codes "NE PAS ENLEVER LA CARTE, ECRITURE EN COURS") k).1 in
      let before : Aside k k' = around in
      caught_Aside k _ (
        then_Aside _ reported k (on_card (write_sector nfc 1) k')
          (Aside-trans before (on_card-Aside (write_sector nfc 1) k')))
    where
      reported :
          (done : Bool) (k : Desk D F)
          → Aside k ((if done then show_info (codes "OK") else show_error (codes "NON OK")) k).1
      reported true k = around
      reported false k = around

module _ {D F : Type 0} where
  -- The screen is printed: the card and the reader are as before.
  pub record Printed (k k' : Desk D F) : Type 0 where
    pub aside : Aside k k'
    pub card : k'.card ≡ k.card
    pub device : k'.env.device ≡ k.env.device

  pub Printed-refl : (k : Desk D F) → Printed k k
  Printed-refl k = record { aside = Aside-refl k; card = refl; device = refl }

  module _ (world : World F) (timer : ℕ) where
    pub print_queue-Printed :
        (i : ℕ) (q : List Line) (k : Desk D F)
        → ((print_queue world timer i q k).0 ≡ ok tt) × Printed k (print_queue world timer i q k).1
    unfolding print_queue print_front
    print_queue-Printed i [] k = (refl, Printed-refl k)
    print_queue-Printed i (l ∷ more) k = elim (Option-cases l.printed) [
      | inl unseen ↦ rw unseen (refl, record { aside = around; card = refl; device = refl })
      | inr (printed, seen) ↦ elim (Bool-cases (is_over timer l printed more)) [
        | inl over ↦ rw (seen, over) (refl, record { aside = around; card = refl; device = refl })
        | inr stays ↦ rw (seen, stays) (refl, Printed-refl k)
      ]
    ]

    print_from-Printed :
        (n i : ℕ) (k : Desk D F)
        → ((print_from world timer n i k).0 ≡ ok tt) × Printed k (print_from world timer n i k).1
    unfolding print_from
    print_from-Printed zero i k = (refl, Printed-refl k)
    print_from-Printed (suc n) i k =
        let (done, p) = print_queue-Printed i (get_or k.screen i []) k in
        let k' = (print_queue world timer i (get_or k.screen i []) k).1 in
        let (ends, q) = print_from-Printed n (suc i) k' in
        rw done (
          ends,
          record {
            aside = Aside-trans p.aside q.aside;
            card = q.card ∙ p.card;
            device = q.device ∙ p.device;
          },
        )

  pub print-Printed :
      (world : World F) (k : Desk D F) → ((print world k).0 ≡ ok tt) × Printed k (print world k).1
  unfolding print
  print-Printed world k =
      let (done, p) =
        print_from-Printed world (world.times k.ticks) 4 0 (record k { ticks = suc k.ticks }) in
      (
        done,
        record {
          aside = record {
            config = p.aside.config;
            requests = p.aside.requests;
            strokes = p.aside.strokes;
            read = p.aside.read;
            entries = p.aside.entries;
          };
          card = p.card;
          device = p.device;
        },
      )

-- A message that is shown
pub show_info-Printed : {D F : Type 0} (m : List ℕ) (k : Desk D F) → Printed k (show_info m k).1
show_info-Printed m k = record { aside = around; card = refl; device = refl }

-- The line of the database for a price that is paid
abbrev pub history_line : {F : Type 0} → FloatUnit F → List ℕ → List ℕ → F → List ℕ
history_line float pianss command price =
    codes "INSERT INTO history (pianss, command, price) VALUES (\""
    ++ (pianss
        ++ (codes "\", \"" ++ (command ++ (codes "\", " ++ (float.shown price ++ codes ");")))))

-- A card stands beside its tag as before.
pub CardStands-Printed :
    {D F : Type 0} {content : D → ℕ → List ℕ} {key uid : List ℕ} {tag : ℕ → List ℕ}
    {blocks : List (List Block)} (k k' : Desk D F)
    → Printed k k'
    → CardStands content key uid tag blocks k
    → CardStands content key uid tag blocks k'
CardStands-Printed {content = content} k k' p (c, holds, v) = (
  c,
  p.card ∙ holds,
  record {
    card = v.card;
    memory = v.memory;
    on_tag = λ n. ap (λ d. content d n) p.device ∙ v.on_tag n;
  },
)
