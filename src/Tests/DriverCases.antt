-- ===== src/Tests/DriverCases.antt =====
-- The database and the reader's driver, with concrete functions in the place of the libraries.
use programme_bee_gadz.Common.{
  ℕ, suc, ◌≡◌, refl, Bool, true, false, none, some, List, [], ◌∷◌, ok, pos, codes, get_elem?,
}
use programme_bee_gadz.Mysql.{Account, Client, Mysql, Session, new_mysql, send_request}
use programme_bee_gadz.Mysql.Links.{IsClient, Reach, Reach-closed, made, called, request}
use programme_bee_gadz.Mysql.Rows.{IsResult, next_rows, next_rows_left}
use programme_bee_gadz.NfcDevice.Opening.{
  Opener, Driver, new_device, delete_device, need_context, start,
}
use programme_bee_gadz.NfcDevice.Opening.Constructing.{IsCounted, opened}
use programme_bee_gadz.NfcDevice.Opening.Counting.{
  Reachable, Reachable-IsCounted, started, next, constructed, reopened_after_exit,
}
use programme_bee_gadz.Tests.CardCases.{printer}

-- A server: whether there is a connection, and what has been asked.
pub record Server : Type 0 where
  pub connected : Bool
  pub asked : List (List ℕ)

-- A result: its rows, and the one where it stands.
pub record Rows : Type 0 where
  pub rows : List (List (List ℕ))
  pub place : ℕ

abbrev pub table : List (List (List ℕ))
table = (codes "a" ∷ codes "1" ∷ []) ∷ (codes "b" ∷ codes "2" ∷ []) ∷ []

abbrev pub client : Client Server Rows
client = record {
  init = λ l. record { connected = false; asked = [] };
  options = λ text l. l;
  real_connect = λ a l. (true, record l { connected = true });
  query = λ text l. (pos 0, record l { asked = text ∷ l.asked });
  close = λ l. record l { connected = false };
  store_result = λ l. (some (record { rows = table; place = 0 }), l);
  free_result = λ r l. l;
  num_fields = λ r. 2;
  data_seek = λ n r. record r { place = n };
  fetch_row = λ r. (get_elem? r.rows r.place, record r { place = suc r.place });
}

client-IsClient : IsClient client (λ l. l.connected)
client-IsClient = record { refused = λ a l e. cc; closes = λ l. refl }

client-IsResult : IsResult client (λ r. r.rows)
client-IsResult = record { fetches = λ r n. refl; kept = λ r n. refl }

abbrev pub account : Account
account = record { server = codes "s"; db = codes "d"; user = codes "u"; passwd = codes "p" }

abbrev pub raw : Server
raw = record { connected = false; asked = [] }

abbrev pub fresh : Mysql Server Rows
fresh = record { account = account; link = raw; result = none; nb_fields = 0 }

abbrev pub used : Mysql Server Rows
used = record fresh { link = record { connected = false; asked = codes "q" ∷ [] } }

used-Reach : Reach client used
unfolding new_mysql send_request
used-Reach = called (made account raw raw fresh refl) (request fresh used true (codes "q") refl)

Reach-closed_example : used.link.connected ≡ false
Reach-closed_example = Reach-closed client-IsClient used-Reach

-- The second result starts at row 1.
abbrev pub session : Session Server Rows
session = record {
  mysql = record fresh { result = some (record { rows = table; place = 0 }); nb_fields = 2 };
  line = 1;
}

next_rows_left_example : (next_rows client 1 session).0 ≡ ok ((codes "b" ∷ codes "2" ∷ []) ∷ [])
next_rows_left_example = next_rows_left client-IsResult session refl (refl, tt)

-- The library counts what it has opened and given up.
pub record Bus : Type 0 where
  pub contexts : ℕ
  pub exits : List ℕ

abbrev pub opener : Opener Bus ℕ ℕ
opener = record {
  init = λ w. (some w.contexts, record w { contexts = suc w.contexts });
  version = codes "1.7.1";
  open_device = λ x w. (some 7, w);
  initiator_init = λ d w. (pos 0, w);
  device_name = λ d. codes "pn532";
  close = λ d w. w;
  exit = λ x w. record w { exits = x ∷ w.exits };
}

abbrev pub start_state : Driver Bus ℕ
start_state = record {
  context = none;
  instances = 0;
  world = record { contexts = 0; exits = [] };
  printer = printer;
}

abbrev pub first_state : Driver Bus ℕ
first_state = (new_device opener start_state).1

first-Reachable : Reachable opener first_state (7 ∷ [])
unfolding new_device need_context start
first-Reachable =
    next (started start_state refl refl) (constructed start_state first_state 7 [] refl)

Reachable-IsCounted_example : IsCounted opener first_state (7 ∷ [])
Reachable-IsCounted_example = Reachable-IsCounted opener first-Reachable

reopened_after_exit_example :
    (x : ℕ) × ((delete_device opener 7 first_state).1.world ≡ opener.exit x first_state.world)
    × (new_device opener (delete_device opener 7 first_state).1
        ≡ opened opener x (delete_device opener 7 first_state).1)
reopened_after_exit_example = reopened_after_exit opener 7 first-Reachable
