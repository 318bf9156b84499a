-- ===== src/Server.antt =====
-- socket_server/server.py, lines 9 to 39: the count of open connections, which the threads of the server
-- change under a lock, one call after the other.
pub mod Connections
use socket_server.Prelude.{ℕ, ◌+◌, ◌-◌, ltb, ◌==◌, if◌then◌else◌}

-- The module's variables; times are in seconds.
pub record Tracker : Type 0 where
  pub active_clients : ℕ
  pub last_disconnect_time : ℕ

-- `get_idle_state`, at the time `now`.
pub get_idle_state : ℕ → Tracker → ℕ × ℕ
get_idle_state now t =
    if ltb 0 t.active_clients
    then (t.active_clients, 0)
    else (t.active_clients, now - t.last_disconnect_time)

-- `TrackedTCPHandler.setup`
unfoldable pub setup : Tracker → Tracker
setup t = record t { active_clients = t.active_clients + 1 }

abbrev one_less : Tracker → Tracker
one_less t =
    if ltb 0 t.active_clients then record t { active_clients = t.active_clients - 1 } else t

abbrev pub stamp : ℕ → Tracker → Tracker
stamp now t = if t.active_clients == 0 then record t { last_disconnect_time = now } else t

-- `TrackedTCPHandler.finish`, at the time `now`.
pub finish : ℕ → Tracker → Tracker
finish now t = stamp now (one_less t)
