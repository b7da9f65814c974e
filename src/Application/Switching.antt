-- ===== src/Application/Switching.antt =====
-- The mode of administration, from an ADMIN card to the end of its menu (src/application.cpp).
use programme_bee_gadz.Common.{◌≡◌, ◌≢◌, refl, true, ok}
use programme_bee_gadz.Config.{ConfigMode, is_known}
use programme_bee_gadz.Application.{App, run_round}

-- `run` of the mode that runs meets an ADMIN card, and then the menu of administration returns with
-- the configuration's mode `chosen`, which is one of the other three: the mode that runs next is
-- `chosen`, and the configuration's mode stays `chosen`.
pub admin_visit :
    (app : App) (chosen : ConfigMode)
    → chosen ≢ ConfigMode.admin
    → is_known chosen ≡ true
    → run_round (ok true) chosen (run_round (ok true) ConfigMode.admin app)
      ≡ record app { config_mode = chosen; running = chosen }
unfolding run_round
admin_visit app ConfigMode.admin ne known = absurd (ne refl)
admin_visit app ConfigMode.bar ne known = refl
admin_visit app ConfigMode.caisse ne known = refl
admin_visit app ConfigMode.kve ne known = refl
admin_visit app ConfigMode.unknown ne known = cc
