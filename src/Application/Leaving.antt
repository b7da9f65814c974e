-- ===== src/Application/Leaving.antt =====
-- What `run` of the modes `Bar`, `Caisse` and `Kve` (src/bar.cpp, src/caisse.cpp, src/kve.cpp) returns,
-- and what `Application::run` (src/application.cpp) does then.
use programme_bee_gadz.Common.{
  ℕ, List, take, set, ◌≢◌, ◌≡◌, refl, ap, ◌∙◌, Bool, true, false, Result, ok, codes,
}
use mathlib.Core.Path.{ap₂}
use programme_bee_gadz.Mifare.{Libnfc, Target}
use programme_bee_gadz.Config.{ConfigMode, is_known}
use programme_bee_gadz.Mode.{test_card, c_string}
use programme_bee_gadz.Mode.Members.{FloatUnit, World, Desk}
use programme_bee_gadz.Mode.Reader.{Next}
use programme_bee_gadz.Mode.Leaving.{Gives_ok, Leaves}
use programme_bee_gadz.Bar.{BarRun}
use programme_bee_gadz.Bar.Round.{bar_round}
use programme_bee_gadz.Bar.Leaving.{bar_round-Ends}
use programme_bee_gadz.Caisse.{caisse_round}
use programme_bee_gadz.Caisse.Leaving.{caisse_round-Ends}
use programme_bee_gadz.Kve.{KveRun, kve_round}
use programme_bee_gadz.Kve.Leaving.{kve_round-Ends}
use programme_bee_gadz.Block.{memory}
use programme_bee_gadz.Card.Tag.{IsMifare}
use programme_bee_gadz.Card.Tag.Fetching.{clean_block}
use programme_bee_gadz.Card.Tag.Reading.{sector_of}
use programme_bee_gadz.Card.Tag.Fresh.{IsFound, unread_blocks}
use programme_bee_gadz.Mode.OnTag.{CardStands-Holds}
use programme_bee_gadz.Bar.Visit.Seen as BarSeen
use programme_bee_gadz.Mode.Laid.{IsSeen}
use programme_bee_gadz.Bar.Leaving as BarLeaving
use programme_bee_gadz.Caisse.Visit.Taking as CaisseTaking
use programme_bee_gadz.Caisse.Leaving as CaisseLeaving
use programme_bee_gadz.Kve.Visit.Seen as KveSeen
use programme_bee_gadz.Kve.Leaving as KveLeaving
use programme_bee_gadz.Application.Switching.{admin_visit}
use programme_bee_gadz.Application.{App, run_round}

-- `*m_mode`, in its `run`
pub data Running (D F : Type 0) : Type 0 where
  bar : BarRun D F → Running D F
  caisse : Desk D F → Running D F
  kve : KveRun D F → Running D F

module _ {D F : Type 0} (nfc : Libnfc D) (float : FloatUnit F) (world : World F) where
  -- A round of the loop of `m_mode->run()`, and the members that it leaves
  unfoldable pub mode_round : Running D F → Result Next × Desk D F
  mode_round (Running.bar b) = let (r, b') = bar_round nfc float world b in (r, b'.desk)
  mode_round (Running.caisse k) = caisse_round nfc float world k
  mode_round (Running.kve r) = let (x, r') = kve_round nfc float world r in (x, r'.desk)

  mode_round-Leaves :
      (m : Running D F) (x : Bool)
      → (mode_round m).0 ≡ ok (Next.returns x)
      → Leaves (λ k. k) (Next.returns x) (mode_round m).1
  unfolding mode_round
  mode_round-Leaves (Running.bar b) x e =
      Gives_ok (Leaves (λ b. b.desk)) (bar_round nfc float world b)
        (bar_round-Ends nfc float world b) e
  mode_round-Leaves (Running.caisse k) x e =
      Gives_ok (Leaves (λ k. k)) (caisse_round nfc float world k)
        (caisse_round-Ends nfc float world k) e
  mode_round-Leaves (Running.kve r) x e =
      Gives_ok (Leaves (λ r. r.desk)) (kve_round nfc float world r)
        (kve_round-Ends nfc float world r) e

  -- A round of `run` of the bar, the caisse or the kve returns: then the card in hand is an ADMIN card,
  -- and `Application::run` goes on (it ends only if it was about to), with the mode of administration,
  -- and with the mode of the configuration as it was before `run`.
  pub only_admin_leaves :
      (m : Running D F) (x : Bool) (app : App)
      → (mode_round m).0 ≡ ok (Next.returns x)
      → ((test_card (codes "ADMIN") (mode_round m).1).0 ≡ ok true)
        × (run_round (ok x) (mode_round m).1.config.mode app
            ≡ record app { running = ConfigMode.admin })
  unfolding run_round
  only_admin_leaves m x app e =
      let (true_, has) = mode_round-Leaves m x e in
      (has.named, ap₂ (λ x left. run_round (ok x) left app) true_ has.mode)

-- The members of the mode
abbrev pub desk_of : {D F : Type 0} → Running D F → Desk D F
desk_of (Running.bar b) = b.desk
desk_of (Running.caisse k) = k
desk_of (Running.kve r) = r.desk

-- `true` in the call of `getKeys` of the mode
abbrev pub is_caisse : {D F : Type 0} → Running D F → Bool
is_caisse (Running.bar b) = false
is_caisse (Running.caisse k) = true
is_caisse (Running.kve r) = false

module _ {D F : Type 0} {nfc : Libnfc D} {content : D → ℕ → List ℕ} {opened : D → ℕ → Bool}
    {key : List ℕ} {target : Target} (found : IsFound nfc content target)
    (reader : IsMifare nfc content opened key (take 4 target.uid)) (float : FloatUnit F)
    (world : World F) where
  -- What a round leaves when an ADMIN card is laid on the reader
  record IsAdmitted (tag : ℕ → List ℕ) (r : Result Next × Desk D F) : Type 0 where
    returns : r.0 ≡ ok (Next.returns true)
    mode : r.1.config.mode ≡ ConfigMode.admin
    tag_same : (n : ℕ) → content r.1.env.device n ≡ tag n

  mode_round-IsAdmitted :
      (m : Running D F)
      → IsSeen key target world (is_caisse m) (desk_of m)
      → c_string (memory (clean_block (content (desk_of m).env.device 4))) ≡ codes "ADMIN"
      → IsAdmitted (content (desk_of m).env.device) (mode_round nfc float world m)
  unfolding mode_round
  mode_round-IsAdmitted (Running.bar b) seen named =
      let tag = content b.desk.env.device in
      let blocks = set unread_blocks 1 (sector_of tag 1) in
      let (b', timer, served, v) = BarSeen.round_seen found reader float world b seen in
      let ends =
        BarLeaving.serve_admin nfc float world timer b' (clean_block (tag 4)) _
          (CardStands-Holds b'.desk blocks refl v) named in
      let (c, there, s) = v in
      rw (served, ends) (record { returns = refl; mode = refl; tag_same = s.on_tag })
  mode_round-IsAdmitted (Running.caisse k) seen named =
      let tag = content k.env.device in
      let blocks = set unread_blocks 1 (sector_of tag 1) in
      let (k', served, v, w) = CaisseTaking.round_laid found reader float world k (record {
        known = seen.known;
        four = seen.four;
        raw = seen.raw;
        nothing = seen.nothing;
        keys = seen.keys;
        six = seen.six;
      }) in
      let ends =
        CaisseLeaving.serve_admin nfc float world k' (clean_block (tag 4)) _
          (CardStands-Holds k' blocks refl v) named in
      let (c, there, s) = v in
      rw (served, ends) (record { returns = refl; mode = refl; tag_same = s.on_tag })
  mode_round-IsAdmitted (Running.kve r) seen named =
      let tag = content r.desk.env.device in
      let blocks = set unread_blocks 1 (sector_of tag 1) in
      let (r', served, v) = KveSeen.round_seen found reader float world r seen in
      let ends =
        KveLeaving.serve_admin nfc float world r' (clean_block (tag 4)) _
          (CardStands-Holds r'.desk blocks refl v) named in
      let (c, there, s) = v in
      rw (served, ends) (record { returns = refl; mode = refl; tag_same = s.on_tag })

  -- No card is in hand, and an ADMIN card of a type that the program knows, with a UID of four bytes, is
  -- laid on the reader of the bar, the caisse or the kve, whose configuration has the card's key: in that
  -- round, whatever key is pressed and whatever is ordered, `run` returns; the card's tag is as before, and
  -- when the menu of administration has returned with the mode `chosen`, which is the bar, the caisse or the kve,
  -- `Application::run` runs that mode, which is the configuration's.
  pub admin_card_leaves :
      (m : Running D F) (app : App) (chosen : ConfigMode)
      → IsSeen key target world (is_caisse m) (desk_of m)
      → c_string (memory (clean_block (content (desk_of m).env.device 4))) ≡ codes "ADMIN"
      → chosen ≢ ConfigMode.admin
      → is_known chosen ≡ true
      → ((mode_round nfc float world m).0 ≡ ok (Next.returns true))
        × ((n : ℕ)
            → content (mode_round nfc float world m).1.env.device n
              ≡ content (desk_of m).env.device n)
        × (run_round
              (ok true)
              chosen
              (run_round (ok true) (mode_round nfc float world m).1.config.mode app)
            ≡ record app { config_mode = chosen; running = chosen })
  admin_card_leaves m app chosen seen named ne known =
      let a = mode_round-IsAdmitted m seen named in
      (
        a.returns,
        a.tag_same,
        ap (λ left. run_round (ok true) chosen (run_round (ok true) left app)) a.mode
            ∙ admin_visit app chosen ne known,
      )
