-- ===== src/Application.antt =====
-- `class Application` (include/application.h, src/application.cpp): which mode runs, and when the
-- program ends, and the requests that the modes send.
pub mod Switching
pub mod Leaving
pub mod Opening
use programme_bee_gadz.Common.{
  ℕ, zero, suc, Bool, true, false, List, [], ◌∷◌, Result, ok, threw, fault, if◌then◌else◌,
}
use programme_bee_gadz.Config.{ConfigMode, is_known}
use programme_bee_gadz.Mysql.{Client, Mysql}
use programme_bee_gadz.Mysql

-- `m_config->getMode()`, the class of `*m_mode`, and `end` of `run`
pub record App : Type 0 where
  pub config_mode : ConfigMode
  pub running : ConfigMode
  pub end : Bool

-- `if (m_config->getMode() == Config::ADMIN) m_config->setMode(tmp);`
abbrev pub back_from_admin : ConfigMode → ConfigMode → ConfigMode
back_from_admin tmp ConfigMode.admin = tmp
back_from_admin tmp ConfigMode.caisse = ConfigMode.caisse
back_from_admin tmp ConfigMode.bar = ConfigMode.bar
back_from_admin tmp ConfigMode.kve = ConfigMode.kve
back_from_admin tmp ConfigMode.unknown = ConfigMode.unknown

-- A round of `Application::run`, by how `m_mode->run()` ended and the mode that it left in the
-- configuration; `create_mode` makes an object of that mode, and throws if it does not know it.
unfoldable pub run_round : Result Bool → ConfigMode → App → App
run_round (ok false) left app = record app { config_mode = left; end = true }
run_round (ok true) left app =
    if is_known left
    then record app { config_mode = back_from_admin app.config_mode left; running = left }
    else record app { config_mode = left }
run_round threw left app = record app { config_mode = left }
run_round fault left app = record app { config_mode = left }

module _ {L R : Type 0} (client : Client L R) where
  -- `Application::sendRequest`: every connection gets the request, and what it returns is not looked
  -- at.
  unfoldable pub send_request : List ℕ → List (Mysql L R) → List (Mysql L R)
  send_request request [] = []
  send_request request (m ∷ connections) =
      (Mysql.send_request client request m).1 ∷ send_request request connections
