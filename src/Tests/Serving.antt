-- ===== src/Tests/Serving.antt =====
-- Runs of the start of the service.
use socket_server.Prelude.{
  ℕ, ◌+◌, refl, true, false, Option, none, some, List, [], ◌∷◌, if◌then◌else◌,
}
use socket_server.Prelude.Bytes.{Text, codes, eqb}
use socket_server.Prelude.Int.{ℤ, pos}
use socket_server.HttpFile.Port.{listens, os_error}
use socket_server.Serve.{State, Setup, cmd_serve}
use socket_server.Serve.Order.{Serves, cmd_serve-Serves}

-- The world is the number of commands that were run; all go well.
abbrev systemctl : List Text → ℕ → ℤ × ℕ
systemctl args n = (pos 0, n + 1)

abbrev system : Text → ℕ → ℕ
system cmd n = n + 1

abbrev as_int : Text → Option ℤ
as_int s = if eqb s (codes "9001") then some (pos 9001) else none

abbrev host : State ℕ
host = record {
  rmem_max = record { cur = some (pos 212992); writable = true };
  wmem_max = record { cur = some (pos 67108864); writable = true };
  environ = [];
  machine = record {
    binaries = record { current_runs = true; fallback_runs = false; own = none };
    unit = some (codes "[Unit]");
    writable = true;
    config = some (codes "http_port=9001");
    world = 0;
  };
  http = [];
  tcp = [];
}

-- A host without IPv6.
abbrev plain : Setup
plain = record {
  path_java = [];
  browsers_path = codes "/root/.cache/ms-playwright";
  config = some (codes "http_port=9001" ∷ []);
  http_v4 = listens;
  http_v6 = os_error;
  tcp_v4 = listens;
  tcp_v6 = os_error;
}

cmd_serve-Serves_example :
    Serves systemctl system as_int plain host (cmd_serve systemctl system as_int plain host)
cmd_serve-Serves_example = cmd_serve-Serves systemctl system as_int plain host refl refl
