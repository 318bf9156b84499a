-- ===== src/NetUtils.antt =====
-- socket_server/netutils.py: the commands that the server runs for its clients, with the environment
-- that they are given, and the waits for a value. The output that they print is not modelled.
pub mod Tables
pub mod Environment
pub mod Waits
use socket_server.Prelude.{
  ℕ, zero, suc, ◌+◌, ◌-◌, ◌/◌, ◌⊎◌, inl, inr, Bool, true, false, not, ◌&&◌, ◌||◌, Option, none,
  some, List, [], ◌∷◌, ◌++◌, leb, ◌==◌, if◌then◌else◌, length, drop,
}
use socket_server.Prelude.Bytes.{Text, codes, eqb, starts_with}
use socket_server.Prelude.Int.{ℤ, negsuc, eq_ℕ}
use socket_server.Prelude.Dict.{Dict}
use socket_server.Prelude.Strip.{is_space, lstrip, strip}

-- `_strip_sudo_if_root`, for a text; `root` is `os.geteuid() == 0`.
strip_sudo_if_root : Bool → Text → Text
strip_sudo_if_root root args =
    let s = strip is_space args in
    let after = lstrip is_space (drop 5 s) in
    if not root
    then args
    else if not (starts_with (codes "sudo ") s || starts_with (codes "sudo" ++ (9 ∷ [])) s)
    then args
    else if (length after == 0) || starts_with (codes "-") after
    then args
    else after

-- `sys._MEIPASS` is there, is not empty, and starts the value.
abbrev pub under_meipass : Option Text → Text → Bool
under_meipass none value = false
under_meipass (some meipass) value = not (length meipass == 0) && starts_with meipass value

-- The variables that a child process is not given.
pub is_injected : Option Text → Text → Text → Bool
is_injected meipass k value =
    (eqb k (codes "LD_LIBRARY_PATH") || starts_with (codes "_PYI_") k)
    || (not (eqb k (codes "PATH")) && under_meipass meipass value)

unfoldable pub drop_injected : Option Text → Dict Text → Dict Text
drop_injected meipass [] = []
drop_injected meipass ((k, value) ∷ env) =
    if is_injected meipass k value
    then drop_injected meipass env
    else (k, value) ∷ drop_injected meipass env

-- `_clean_subprocess_env`
pub clean_subprocess_env : Option Text → Dict Text → Option (Dict Text) → Dict Text
clean_subprocess_env meipass environ none = drop_injected meipass environ
clean_subprocess_env meipass environ (some env) = drop_injected meipass env

-- What a command gives.
pub record Completed : Type 0 where
  pub returncode : ℤ
  pub stdout : Text
  pub stderr : Text

-- A command, as a text for the shell or as a list.
pub data Args : Type 0 where
  line : Text → Args
  list : List Text → Args

-- The process that runs this program, and the commands that it can run: `run` gives the text of the
-- exception if the command cannot be started.
pub record Shell (W : Type 0) : Type 0 where
  pub root : Bool
  pub meipass : Option Text
  pub environ : Dict Text
  pub run : Args → Option Text → Dict Text → Bool → W → (Text ⊎ Completed) × W
  pub spawn : Args → Option Text → Dict Text → Bool → W → Option Text × W
  pub which : Text → W → Bool

-- The command as it is run.
prepared : Bool → Bool → Args → Args
prepared root true (line args) = line (strip_sudo_if_root root args)
prepared root false (line args) = line args
prepared root shell (list args) = list args

-- `except Exception`
abbrev or_exception : Text ⊎ Completed → Completed
or_exception (inl e) = record { returncode = negsuc 0; stdout = []; stderr = e }
or_exception (inr c) = c

abbrev pub option : Text → Option Text → List Text
option flag none = []
option flag (some []) = []
option flag (some (c ∷ cs)) = flag ∷ (c ∷ cs) ∷ []

-- The command line of `unzip`.
unzip_args : Text → Option Text → Option Text → Bool → List Text
unzip_args filename outdir passwd overwrite =
    (codes "unzip" ∷ [])
    ++ ((if overwrite then codes "-o" ∷ [] else [])
        ++ (option (codes "-P") passwd ++ ((filename ∷ []) ++ option (codes "-d") outdir)))

-- `cwd=dir or None`
abbrev pub or_none : Text → Option Text
or_none [] = none
or_none (c ∷ cs) = some (c ∷ cs)

module _ {W : Type 0} (sh : Shell W) where
  open sh use {root, meipass, environ, run, spawn, which}

  -- `exec_cmd_subprocess` when it waits, by `subprocess.run` or `communicate`.
  pub exec_cmd_subprocess : Args → Option Text → Option (Dict Text) → Bool → W → Completed × W
  exec_cmd_subprocess args cwd env shell w =
      let (r, w') =
        run (prepared root shell args) cwd (clean_subprocess_env meipass environ env) shell w in
      (or_exception r, w')

  -- The same with `wait=False` and `use_run=False`: no answer, unless the command does not start.
  exec_cmd_detached : Args → Option Text → Option (Dict Text) → Bool → W → Option Completed × W
  exec_cmd_detached args cwd env shell w =
      let (failure, w') =
        spawn (prepared root shell args) cwd (clean_subprocess_env meipass environ env) shell w in
      elim failure [ none ↦ (none, w') | some e ↦ (some (or_exception (inl e)), w') ]

  -- `subprocess.run(install_cmd, shell=True)`, in the environment of this program.
  pub install : Text → W → W
  install install_cmd w = (run (line install_cmd) none environ true w).1

  pub ensure_command : Text → Option Text → W → Bool × W
  ensure_command cmd none w = (which cmd w, w)
  ensure_command cmd (some []) w = (which cmd w, w)
  ensure_command cmd (some (c ∷ cs)) w =
      let w' = install (c ∷ cs) w in if which cmd w then (true, w) else (which cmd w', w')

  -- `unzip`, on the two parts of the path.
  unzip : Text → Text → Option Text → Option Text → Bool → W → W
  unzip dir filename outdir passwd overwrite w =
      let (check, w₁) =
        exec_cmd_subprocess (list (codes "unzip" ∷ codes "-v" ∷ [])) none none false w in
      let w₂ =
        (exec_cmd_subprocess (list (unzip_args filename outdir passwd overwrite)) (or_none dir) none
          false w₁).1 in
      if eq_ℕ check.returncode 0 then w₂ else w₁

-- `detect_ip_version`, with `socket.inet_pton` for the two families; `none` for the ValueError.
detect_ip_version : (Text → Bool) → (Text → Bool) → Text → Option ℕ
detect_ip_version is_v6 is_v4 host =
    if is_v6 host then some 6 else if is_v4 host then some 4 else none

-- A clock in some fixed unit, and the pauses of the program.
pub record Clock (W : Type 0) : Type 0 where
  pub now : W → ℕ
  pub sleep : ℕ → W → W

module _ {W A : Type 0} (clock : Clock W) (func : W → Option A × W) (accept : A → Bool) where
  open clock use {now, sleep}

  -- An exception, or a value that is not accepted: the loop goes on after a pause.
  abbrev pub is_accepted : Option A → Bool
  is_accepted none = false
  is_accepted (some a) = accept a

  -- The loop of `wait_until` and `wait_not_until`, on fuel; `none` is out of fuel.
  pub wait_loop : ℕ → ℕ → ℕ → ℕ → W → Option (Bool × W)
  wait_loop zero begun step timeout w = none
  wait_loop (suc fuel) begun step timeout w =
      let (act_value, w') = func w in
      let rest = wait_loop fuel begun step timeout (sleep step w') in
      if not (leb (now w - begun) timeout)
      then some (false, w)
      else if is_accepted act_value
      then some (true, w')
      else rest

  -- The test of the loop is made once more than there are steps in the time.
  pub wait_for : ℕ → ℕ → W → Option (Bool × W)
  wait_for step timeout w = wait_loop (timeout / step + 2) (now w) step timeout w

module _ {W A : Type 0} (clock : Clock W) (func : W → Option A × W) (eq : A → A → Bool) where
  pub wait_until : A → ℕ → ℕ → W → Option (Bool × W)
  wait_until expect_value step timeout w =
      wait_for clock func (λ a. eq a expect_value) step timeout w

  pub wait_not_until : A → ℕ → ℕ → W → Option (Bool × W)
  wait_not_until expect_value step timeout w =
      wait_for clock func (λ a. not (eq a expect_value)) step timeout w
