-- ===== src/Tests/LeavingCases.antt =====
-- Tests and witnesses: an ADMIN card on the reader of the caisse, and the application after it.
use programme_bee_gadz.Common.{
  ℕ, ◌≡◌, refl, true, false, none, [], ◌∷◌, ok, codes, replicate, ◌==◌, if◌then◌else◌,
}
use programme_bee_gadz.Config.{ConfigMode}
use programme_bee_gadz.Mode.{test_card}
use programme_bee_gadz.Mode.Members.{Desk}
use programme_bee_gadz.Mode.Reader.{Next}
use programme_bee_gadz.Caisse.{caisse_round}
use programme_bee_gadz.Mode.Laid.{IsSeen}
use programme_bee_gadz.Tests.Reader.{target}
use programme_bee_gadz.Application.{App, run_round}
use programme_bee_gadz.Application.Leaving.{
  Running, mode_round, only_admin_leaves, admin_card_leaves,
}
use programme_bee_gadz.Tests.Desks.{Cents, cents, desk_on}
use programme_bee_gadz.Tests.ClassicCases.{Slot, content, standing, standing-IsMifare}
use programme_bee_gadz.Tests.VisitCases.{world, standing-IsFound}

abbrev admin_slot : Slot
admin_slot = record {
  open_sector = none;
  cells = λ n. if n == 4 then 65 ∷ 68 ∷ 77 ∷ 73 ∷ 78 ∷ replicate 11 0 else replicate 16 0;
}

-- An ADMIN card is laid on the reader.
abbrev caisse : Desk Slot Cents
caisse = record (desk_on admin_slot []) { card = none; read = false }

caisse-IsSeen : IsSeen (replicate 6 0xff) target world true caisse
caisse-IsSeen = record {
  known = refl;
  four = refl;
  raw = refl;
  nothing = refl;
  keys = refl;
  six = refl;
}

abbrev app : App
app = record { config_mode = ConfigMode.caisse; running = ConfigMode.caisse; end = false }

admin_card_leaves_example :
    ((caisse_round standing cents world caisse).0 ≡ ok (Next.returns true))
    × ((n : ℕ)
        → content (caisse_round standing cents world caisse).1.env.device n ≡ content admin_slot n)
    × (run_round
          (ok true)
          ConfigMode.bar
          (run_round (ok true) (caisse_round standing cents world caisse).1.config.mode app)
        ≡ record app { config_mode = ConfigMode.bar; running = ConfigMode.bar })
unfolding mode_round
admin_card_leaves_example =
    admin_card_leaves standing-IsFound standing-IsMifare cents world (Running.caisse caisse) app
      ConfigMode.bar caisse-IsSeen refl (λ e. cc) refl

caisse_returns :
    (mode_round standing cents world (Running.caisse caisse)).0 ≡ ok (Next.returns true)
unfolding mode_round
caisse_returns =
    (admin_card_leaves standing-IsFound standing-IsMifare cents world (Running.caisse caisse) app
      ConfigMode.bar caisse-IsSeen refl (λ e. cc) refl).0

only_admin_leaves_example :
    ((test_card (codes "ADMIN") (mode_round standing cents world (Running.caisse caisse)).1).0
      ≡ ok true)
    × (run_round
          (ok true)
          (mode_round standing cents world (Running.caisse caisse)).1.config.mode
          app
        ≡ record app { running = ConfigMode.admin })
only_admin_leaves_example =
    only_admin_leaves standing cents world (Running.caisse caisse) true app caisse_returns
