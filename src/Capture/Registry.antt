-- ===== src/Capture/Registry.antt =====
-- socket_server/capture.py, lines 482 to 621: `tcpdump_start`, `_stop_capture_entry`, `tcpdump_stop` and
-- `tcpdump_isrun` over the registry `_captures` of running captures, one to a path. A capture runs
-- in a process of its own: what the operating system does with it is an interface over a world `W`.
pub mod Calls
use socket_server.Prelude.{ℕ, Bool, true, false, not, Option, none, some, [], ◌∷◌, if◌then◌else◌}
use socket_server.Prelude.Bytes.{Text, eqb}
use socket_server.Prelude.Int.{ℤ, eq_ℕ}
use socket_server.Prelude.Dict.{Dict, lookup, insert, erase}

-- The child's first message, or what stands for it: `poll` timed out, or the pipe broke.
pub data Ready : Type 0 where
  ready failed : Ready

-- Processes by their numbers. `stop_join` sets the stop event and joins, `terminate_join` terminates
-- and joins; each wait has its time limit, so the process may be alive afterwards.
pub record Processes (W : Type 0) : Type 0 where
  pub default_iface : W → Option Text
  pub remove_file : Text → W → W
  pub spawn : Text → Text → W → Option ℕ × W
  pub await_ready : ℕ → W → Ready × W
  pub is_alive : ℕ → W → Bool
  pub stop_join : ℕ → W → W
  pub terminate_join : ℕ → W → W
  pub exitcode : ℕ → W → Option ℤ

-- The registry and the world.
pub record Captures (W : Type 0) : Type 0 where
  pub captures : Dict ℕ
  pub world : W

module _ {W : Type 0} (os : Processes W) where
  open os use {
    default_iface, remove_file, spawn, await_ready, is_alive, stop_join, terminate_join, exitcode,
  }

  -- `_stop_capture_entry`: has the process ended, and the world after the tries.
  pub stop_capture_entry : ℕ → W → Bool × W
  stop_capture_entry proc w =
      if not (is_alive proc w)
      then (true, w)
      else (let w₁ = stop_join proc w in
          if not (is_alive proc w₁)
          then (true, w₁)
          else (let w₂ = terminate_join proc w₁ in (not (is_alive proc w₂), w₂)))

  -- A child that is not ready is told to stop and, if need be, terminated.
  pub reclaim : ℕ → W → W
  reclaim proc w =
      let w₁ = stop_join proc w in if is_alive proc w₁ then terminate_join proc w₁ else w₁

  -- An older capture on the same path is stopped and leaves the registry, whatever came of it.
  pub replace_old : Text → Captures W → Captures W
  replace_old path s = elim (lookup path s.captures) [
    | none ↦ s
    | some old ↦ record {
      captures = erase path s.captures;
      world = (stop_capture_entry old s.world).1;
    }
  ]

  -- Wait for the child, and register it if it is ready.
  pub register : Text → ℕ → Captures W → Bool × Captures W
  register path proc s =
      let (status, w) = await_ready proc s.world in
      elim status [
        | ready ↦ (true, record { captures = insert path proc s.captures; world = w })
        | failed ↦ (false, record s { world = reclaim proc w })
      ]

  pub launch : Text → Text → Captures W → Bool × Captures W
  launch eth path s =
      let (started, w) = spawn eth path s.world in
      elim started [
        | none ↦ (false, record s { world = w })
        | some proc ↦ register path proc (record s { world = w })
      ]

  -- `eth or routeinfo()…`: an empty name counts as none.
  unfoldable pub choose_iface : Option Text → W → Option Text
  choose_iface (some (c ∷ cs)) w = some (c ∷ cs)
  choose_iface _ w = elim (default_iface w) [
    | none ↦ none
    | some eth ↦ if eqb eth [] then none else some eth
  ]

  pub tcpdump_start : Option Text → Text → Captures W → Bool × Captures W
  tcpdump_start eth path s = elim (choose_iface eth s.world) [
    | none ↦ (false, s)
    | some iface ↦
        launch iface path (replace_old path (record s { world = remove_file path s.world }))
  ]

  -- `code not in (0, None)`
  abbrev pub is_clean : Option ℤ → Bool
  is_clean none = true
  is_clean (some code) = eq_ℕ code 0

  pub stop_registered : Text → ℕ → Captures W → Bool × Captures W
  stop_registered path proc s =
      let (stopped, w) = stop_capture_entry proc s.world in
      if stopped
      then (is_clean (exitcode proc w), record { captures = erase path s.captures; world = w })
      else (false, record s { world = w })

  pub tcpdump_stop : Text → Captures W → Bool × Captures W
  tcpdump_stop path s = elim (lookup path s.captures) [
    | none ↦ (true, s)
    | some proc ↦ stop_registered path proc s
  ]

  tcpdump_isrun : Text → Captures W → Bool
  tcpdump_isrun path s = elim (lookup path s.captures) [
    | none ↦ false
    | some proc ↦ is_alive proc s.world
  ]
