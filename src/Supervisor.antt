-- ===== src/Supervisor.antt =====
-- socket_server/supervisor.py: the service of systemd and its unit file. `systemctl` is a parameter;
-- the files are those that the code reads and writes.
pub mod ExecStart
pub mod Unit
use socket_server.Prelude.{
  Bool, true, false, Option, none, some, List, [], ◌∷◌, ◌++◌, if◌then◌else◌,
}
use socket_server.Prelude.Bytes.{Text, codes, eqb}
use socket_server.Prelude.Int.{ℤ, eq_ℕ}
use socket_server.Prelude.Strip.{is_space, strip}

-- Is the file of the link `current` executable, is the one of /opt/socket, and what `shutil.which` finds.
pub record Binaries : Type 0 where
  pub current_runs : Bool
  pub fallback_runs : Bool
  pub own : Option Text

-- The unit file, whether it can be written, the file `config`, and the world of systemd.
pub record Machine (W : Type 0) : Type 0 where
  pub binaries : Binaries
  pub unit : Option Text
  pub writable : Bool
  pub config : Option Text
  pub world : W

abbrev newline : Text
newline = 10 ∷ []

abbrev unlines : List Text → Text
unlines [] = []
unlines (l ∷ ls) = l ++ (newline ++ unlines ls)

-- UNIT_CONTENT, before the path and behind it.
abbrev pub unit_head : Text
unit_head =
    unlines (
      codes "[Unit]"
      ∷ codes "Description=socket_server TCP Service"
      ∷ codes "After=network.target"
      ∷ []
      ∷ codes "[Service]"
      ∷ codes "Type=simple"
      ∷ [])
    ++ codes "ExecStart="

abbrev pub unit_tail : Text
unit_tail = unlines (
    codes "Restart=always"
    ∷ codes "RestartSec=5"
    ∷ codes "Environment=PATH=/usr/local/sbin:/usr/local/bin:/usr/sbin:/usr/bin:/sbin:/bin"
    ∷ []
    ∷ codes "[Install]"
    ∷ codes "WantedBy=multi-user.target"
    ∷ [])

pub unit_content : Text → Text
unit_content exec_path = unit_head ++ (exec_path ++ (codes " serve" ++ (newline ++ unit_tail)))

abbrev pub expected_exec : Text
expected_exec = codes "/opt/socket/versions/current/socket_server"

-- `_find_current_binary`
pub find_current_binary : Binaries → Option Text
find_current_binary b =
    if b.current_runs
    then some expected_exec
    else if b.fallback_runs
    then some (codes "/opt/socket/socket_server")
    else b.own

-- `_ensure_dirs`: the file `config` is begun.
pub ensure_dirs : {W : Type 0} → Machine W → Machine W
ensure_dirs m = elim m.config [
  | none ↦ record m { config = some (codes "autoupgrade=on" ++ newline) }
  | some c ↦ m
]

module _ {W : Type 0} (systemctl : List Text → W → ℤ × W) where
  -- `_systemctl` and the test of its return code.
  pub succeeds : List Text → Machine W → Bool × Machine W
  succeeds args m = let (rc, w) = systemctl args m.world in (eq_ℕ rc 0, record m { world = w })

  -- `_write_unit`
  pub write_unit : Text → Machine W → Bool × Machine W
  write_unit exec_path m =
      if m.writable
      then (
        true,
        (succeeds (codes "daemon-reload" ∷ [])
            (record m { unit = some (unit_content exec_path) })).1,
      )
      else (false, m)

  abbrev enable_written : Bool × Machine W → Bool × Machine W
  enable_written (false, m) = (false, m)
  enable_written (true, m) = succeeds (codes "enable" ∷ codes "socket_server" ∷ []) m

  pub enable_found : Option Text → Machine W → Bool × Machine W
  enable_found none m = (false, m)
  enable_found (some []) m = (false, m)
  enable_found (some (c ∷ cs)) m = enable_written (write_unit (c ∷ cs) m)

  -- `service_enable`
  pub service_enable : Machine W → Bool × Machine W
  service_enable m = enable_found (find_current_binary (ensure_dirs m).binaries) (ensure_dirs m)

  pub heal : Option Text → Machine W → Machine W
  heal none m = m
  heal (some existing) m =
      if eqb (strip is_space existing) (strip is_space (unit_content expected_exec))
      then m
      else (write_unit expected_exec m).1

  -- `ensure_unit_correct`
  pub ensure_unit_correct : Machine W → Machine W
  ensure_unit_correct m = if m.binaries.current_runs then heal m.unit m else m

  service_disable : Machine W → Bool × Machine W
  service_disable m = succeeds (codes "disable" ∷ codes "socket_server" ∷ []) m

  service_start : Machine W → Bool × Machine W
  service_start m = succeeds (codes "start" ∷ codes "socket_server" ∷ []) m

  service_stop : Machine W → Bool × Machine W
  service_stop m = succeeds (codes "stop" ∷ codes "socket_server" ∷ []) m

  service_restart : Machine W → Bool × Machine W
  service_restart m = succeeds (codes "restart" ∷ codes "socket_server" ∷ []) m

  is_service_active : Machine W → Bool × Machine W
  is_service_active m = succeeds (codes "is-active" ∷ codes "socket_server" ∷ []) m
