-- ===== src/Tests/Operated.antt =====
-- Runs of the upgrade and of the count of connections.
use socket_server.Prelude.{
  List, inl, Option, if◌then◌else◌, ◌<◌, ◌≡◌, refl, true, false, none, some, [], ◌∷◌, arith,
  replicate,
}
use socket_server.Prelude.Bytes.{codes, Text, eqb}
use socket_server.Prelude.Strip.{is_space, strip, rstrip}
use socket_server.Upgrade.{Hashes, Host, plain_version, upgrade}
use socket_server.Upgrade.Setting.{read_autoupgrade_config, set_autoupgrade}
use socket_server.Upgrade.Setting.ReadBack.{IsStripped, read-set_autoupgrade}
use socket_server.HttpFile.Port.{read_http_port}
use socket_server.HttpFile.Port.Kept.{
  port_key, port_of, last_value, lines_of, read_http_port-set_autoupgrade,
}
use socket_server.Prelude.Int.{ℤ, pos}
use socket_server.Upgrade.Switched.{IsRefused, upgrade-IsRefused}
use socket_server.Upgrade.Pushed.{UpgradeLeaves, upgrade-UpgradeLeaves}
use socket_server.Server.{Tracker, get_idle_state, setup, finish}
use socket_server.Server.Connections.{System, comes, goes, Steps, stop, step, Steps-get_idle_state}

-- Every file has the checksum of 64 zeros.
abbrev zeros : Hashes
zeros = record { sha256 = λ b. replicate 64 48; lower = λ s. s }

abbrev host : Host
host = record {
  upgrade_lock = false;
  active_clients = 1;
  autoupgrade = true;
  disk = record {
    versions = (codes "1.9.0", record { staging_binary = some (1 ∷ 2 ∷ []); binary = none }) ∷ [];
    current = some (codes "1.8.0");
    restarts = 0;
  };
}

upgrade-UpgradeLeaves_example :
    UpgradeLeaves zeros
      (plain_version (codes "v1.9.0"))
      (zeros.lower (strip is_space (zeros.lower (strip is_space (replicate 64 48)))))
      host
      (upgrade zeros (codes "v1.9.0") (replicate 64 48) false host)
upgrade-UpgradeLeaves_example =
    upgrade-UpgradeLeaves zeros (codes "v1.9.0") (replicate 64 48) false host

abbrev quiet : System
quiet = record {
  connections = [];
  clock = 5;
  tracker = record { active_clients = 0; last_disconnect_time = 0 };
}

abbrev one_open : System
one_open = record quiet { connections = 7 ∷ []; tracker = setup quiet.tracker }

abbrev two_open : System
two_open = record one_open { connections = 8 ∷ 7 ∷ []; tracker = setup one_open.tracker }

-- The first of two connections goes before the second.
abbrev first_gone : System
first_gone = record { connections = 8 ∷ []; clock = 5; tracker = finish 5 two_open.tracker }

abbrev three_steps : Steps quiet first_gone
three_steps = step quiet one_open first_gone (comes 7 quiet) (
    step one_open two_open first_gone (comes 8 one_open) (
      step two_open first_gone first_gone (goes (8 ∷ []) [] 7 5 two_open.tracker)
        (stop first_gone)))

Steps-get_idle_state_example :
    ((get_idle_state 5 first_gone.tracker).0 ≡ 1)
    × (0 < 1 → (get_idle_state 5 first_gone.tracker).1 ≡ 0)
Steps-get_idle_state_example =
    Steps-get_idle_state quiet first_gone three_steps (record { counts = refl; past = omega arith })

abbrev lines : List Text
lines = codes "http_port = 9001" ∷ codes "autoupgrade= on " ∷ []

off-IsStripped : IsStripped (codes "off")
unfolding rstrip
off-IsStripped = record { led = refl; ended = refl }

read-set_autoupgrade_example :
    read_autoupgrade_config zeros (some (set_autoupgrade (codes "off") (some lines)))
    ≡ eqb (codes "off") (codes "on")
read-set_autoupgrade_example = read-set_autoupgrade zeros (codes "off") (some lines) off-IsStripped

-- `int` as far as the test needs it.
abbrev as_int : Text → Option ℤ
as_int s = if eqb s (codes "9001") then some (pos 9001) else none

read_http_port-set_autoupgrade_example :
    read_http_port as_int (some (set_autoupgrade (codes "off") (some lines)))
    ≡ port_of as_int (last_value port_key (lines_of (some lines)) none)
read_http_port-set_autoupgrade_example =
    read_http_port-set_autoupgrade as_int (codes "off") (some lines) off-IsStripped

abbrev nobody : Tracker
nobody = record { active_clients = 0; last_disconnect_time = 3 }

-- The host after upgrades were switched off.
abbrev off_host : Host
off_host = record host {
  active_clients = (setup nobody).active_clients;
  autoupgrade = read_autoupgrade_config zeros (some (set_autoupgrade (codes "off") (some lines)));
}

upgrade-IsRefused_example :
    IsRefused off_host (upgrade zeros (codes "v1.9.0") (replicate 64 48) true off_host)
unfolding eqb
upgrade-IsRefused_example =
    upgrade-IsRefused zeros (codes "v1.9.0") (replicate 64 48) true off_host (codes "off")
      (some lines) nobody off-IsStripped refl refl refl (inl refl)
