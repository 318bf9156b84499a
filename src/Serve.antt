-- ===== src/Serve.antt =====
-- socket_server/cli.py, lines 8 to 47, with socket_server/__init__.py, lines 86 to 151, and
-- socket_server/server.py, lines 42 to 90: the start of the service. What the system answers is an input.
pub mod Order
use socket_server.Prelude.{
  Bool, true, false, Option, none, some, List, [], ◌∷◌, ◌++◌, leb, if◌then◌else◌,
}
use socket_server.Prelude.Bytes.{Text, codes}
use socket_server.Prelude.Dict.{Dict, lookup, insert}
use socket_server.Prelude.Int.{ℤ, pos, negsuc, eq_ℕ}
use socket_server.HttpFile.Port.{
  Created, listens, Family, v4, v6, read_http_port, start_http_file_server,
}
use socket_server.Supervisor.{Machine, ensure_unit_correct}

-- A number under /proc/sys: none is a file that cannot be read, or is no number.
pub record Limit : Type 0 where
  pub cur : Option ℤ
  pub writable : Bool

abbrev pub target_size : ℤ
target_size = pos 33554432

abbrev pub is_enough : ℤ → Bool
is_enough (pos n) = leb 33554432 n
is_enough (negsuc n) = false

-- One round of `_ensure_sock_buf_limits`.
pub raise_limit : Limit → Limit
raise_limit limit = elim limit.cur [
  | none ↦ limit
  | some n ↦
      if is_enough n
      then limit
      else if limit.writable
      then record limit { cur = some target_size }
      else limit
]

-- The commands that end the firewall.
abbrev pub firewall_off : List Text
firewall_off =
    codes "sudo systemctl stop firewalld 2>/dev/null || true"
    ∷ codes "sudo systemctl disable firewalld 2>/dev/null || true"
    ∷ codes "sudo iptables -F 2>/dev/null || true"
    ∷ codes "sudo iptables -X 2>/dev/null || true"
    ∷ codes "sudo iptables -Z 2>/dev/null || true"
    ∷ codes "sudo ufw disable 2>/dev/null || true"
    ∷ codes "sudo sed -i 's/^SELINUX=.*/SELINUX=disabled/g' /etc/selinux/config"
    ∷ codes "sudo setenforce 0"
    ∷ []

-- What the process and its host hold: the limits, the variables of the environment, the unit file with the
-- world of the commands, and the families that are served.
pub record State (W : Type 0) : Type 0 where
  pub rmem_max : Limit
  pub wmem_max : Limit
  pub environ : Dict Text
  pub machine : Machine W
  pub http : List Family
  pub tcp : List Family

-- The directory that `find` gives for java (without white space round it), that of the browsers, the lines
-- of the configuration, and how the servers are created.
pub record Setup : Type 0 where
  pub path_java : Text
  pub browsers_path : Text
  pub config : Option (List Text)
  pub http_v4 : Created
  pub http_v6 : Created
  pub tcp_v4 : Created
  pub tcp_v6 : Created

abbrev pub or_empty : Option Text → Text
or_empty none = []
or_empty (some s) = s

pub with_java : Text → Dict Text → Dict Text
with_java [] env = env
with_java (c ∷ cs) env =
    insert (codes "JAVA_HOME") (codes "/usr/local/jdk1.8.0_202")
      (insert (codes "PATH") ((c ∷ cs) ++ (codes ":" ++ or_empty (lookup (codes "PATH") env))) env)

-- The loops of `start_tcp_server` that run in the end, the thread's first; without IPv6 both serve the one
-- server.
pub serve_on : Created → List Family
serve_on listens = v4 ∷ v6 ∷ []
serve_on _ = v4 ∷ v4 ∷ []

pub on_machine : {W : Type 0} → (W → W) → Machine W → Machine W
on_machine f m = record m { world = f m.world }

module _ {W : Type 0} (system : Text → W → W) where
  pub run_commands : List Text → W → W
  run_commands [] w = w
  run_commands (c ∷ cs) w = run_commands cs (system c w)

  -- `setup_environment`
  pub setup_environment : Setup → State W → State W
  setup_environment u s = record s {
    rmem_max = raise_limit s.rmem_max;
    wmem_max = raise_limit s.wmem_max;
    environ =
        insert (codes "PLAYWRIGHT_BROWSERS_PATH") u.browsers_path (with_java u.path_java s.environ);
    machine = on_machine (run_commands firewall_off) s.machine;
  }

module _ {W : Type 0} (systemctl : List Text → W → ℤ × W) where
  -- The check of the unit file; its exceptions are caught.
  pub check_unit : State W → State W
  check_unit s = record s { machine = ensure_unit_correct systemctl s.machine }

module _ {W : Type 0} (int : Text → Option ℤ) where
  -- The start of the HTTP service; whatever it raises is caught.
  pub start_http : Setup → State W → State W
  start_http u s =
      let http_port = read_http_port int u.config in
      if eq_ℕ http_port 0
      then s
      else record s { http = (start_http_file_server http_port u.http_v4 u.http_v6 s.http).1 }

-- The outcome of the creation of the two TCP servers: false is an exception.
pub serve_or_raise : {W : Type 0} → Created → Created → State W → Bool × State W
serve_or_raise listens second s = (true, record s { tcp = serve_on second })
serve_or_raise _ second s = (false, s)

-- `start_tcp_server`, until it waits.
pub start_tcp_server : {W : Type 0} → Setup → State W → Bool × State W
start_tcp_server u s = serve_or_raise u.tcp_v4 u.tcp_v6 s

module _ {W : Type 0} (systemctl : List Text → W → ℤ × W) (system : Text → W → W)
    (int : Text → Option ℤ) where
  -- `cmd_serve`
  pub cmd_serve : Setup → State W → Bool × State W
  cmd_serve u s =
      start_tcp_server u (start_http int u (check_unit systemctl (setup_environment system u s)))
