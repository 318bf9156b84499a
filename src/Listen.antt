-- ===== src/Listen.antt =====
-- socket_server/socket_listen.py, and the commands 171 to 175 of socket_server/handlers.py: a listener
-- that gathers what its connections send. The connections run in processes of their own, the thread
-- `cachedata` empties their queue; one such thread is modelled, as one start of the server makes.
pub mod Gathered
pub mod Settled
pub mod Stopped
use socket_server.Prelude.{
  ℕ, zero, suc, Bool, true, false, Option, none, some, List, [], ◌∷◌, ◌++◌, ◌==◌, if◌then◌else◌,
  length,
}
use socket_server.Prelude.Bytes.{Bytes, Text, codes, pack_le64}

-- What the thread `cachedata` has in hand: nothing, a chunk that it has got, or one that is added to
-- `datawrite` and not yet to `data`.
pub data Hand : Type 0 where
  free : Hand
  got : Bytes → Hand
  noted : Bytes → Hand

-- The queue, what the thread keeps, `cached` for the attribute `data`, and `bins` for the files of
-- /tmp/socketbin in the order of their times. A statement of a thread is one step.
pub record Stream : Type 0 where
  pub q : List Bytes
  pub hand : Hand
  pub datawrite : Bytes
  pub cached : Bytes
  pub bins : List Bytes

abbrev pub no_stream : Stream
no_stream = record { q = []; hand = free; datawrite = []; cached = []; bins = [] }

-- `_handle_conn` over what `recv` gives: bytes, or an error; nothing ends the connection too.
unfoldable pub handle_conn : List (Option Bytes) → Stream → Stream
handle_conn [] s = s
handle_conn (none ∷ rs) s = s
handle_conn (some [] ∷ rs) s = s
handle_conn (some (b ∷ bs) ∷ rs) s = handle_conn rs (record s { q = s.q ++ ((b ∷ bs) ∷ []) })

-- `if datawrite:` a file is written.
pub write_bin : Bytes → Stream → Stream
write_bin [] s = s
write_bin (b ∷ bs) s = record s { bins = s.bins ++ ((b ∷ bs) ∷ []); datawrite = [] }

-- The next chunk is got; when the queue is empty, the file is written. `fails` is a `get` that raises: the
-- loop goes on.
unfoldable pub get_next : Bool → List Bytes → Stream → Stream
get_next fails [] s = write_bin s.datawrite s
get_next true (chunk ∷ rest) s = s
get_next false (chunk ∷ rest) s = record s { q = rest; hand = got chunk }

-- A chunk in hand is added to `datawrite`, then to `data`.
unfoldable pub add_hand : Bool → Hand → Stream → Stream
add_hand fails free s = get_next fails s.q s
add_hand fails (got chunk) s = record s { hand = noted chunk; datawrite = s.datawrite ++ chunk }
add_hand fails (noted chunk) s = record s { hand = free; cached = s.cached ++ chunk }

-- One move of the loop of `cachedata`.
unfoldable pub cachedata : Bool → Stream → Stream
cachedata fails s = add_hand fails s.hand s

-- The two statements of `cleandata` behind its wait; the shell that removes the files runs beside the
-- thread, and `left` are the files that it misses.
unfoldable pub clean_data : Stream → Stream
clean_data s = record s { cached = [] }

pub remove_bins : List Bytes → Stream → Stream
remove_bins left s = record s { bins = left }

-- `cleandata`, when no other thread does anything in the meantime.
pub cleandata : Stream → Stream
cleandata s = remove_bins [] (clean_data s)

-- `SocketServerListen`: the processes by their numbers.
pub record SocketServerListen : Type 0 where
  pub host : Option Text
  pub port : ℕ
  pub processes : List ℕ
  pub stream : Stream

-- The operating system: `ip_version_of` with `none` for a ValueError, the processes, the process
-- ids that `ss -lptn` shows for a port, `kill -9`, and the pauses of the program.
pub record Ports (W : Type 0) : Type 0 where
  pub ip_version_of : Text → Option ℕ
  pub spawn : Text → ℕ → ℕ → W → Option ℕ × W
  pub is_alive : ℕ → W → Bool
  pub terminate_join : ℕ → W → W
  pub kill_process : ℕ → W → W
  pub pid : ℕ → W → List Text
  pub kill : Text → W → W
  pub pause : W → W

-- The variable `ss` of the handlers, and the world.
pub record Listening (W : Type 0) : Type 0 where
  pub ss : Option SocketServerListen
  pub world : W

-- The answers of the commands.
pub data Reply : Type 0 where
  pids : List Text → Reply
  okay no_server not_started still_bound : Reply
  content : Bytes → Reply

abbrev pub is_empty {ℓ} : {A : Type ℓ} → List A → Bool
is_empty [] = true
is_empty (x ∷ xs) = false

-- Command 174; `gzip` is `compress_gzip`.
pub transfer : {W : Type 0} → (Bytes → Bytes) → Listening W → Reply
transfer gzip s = elim s.ss [
  | none ↦ not_started
  | some l ↦ content (pack_le64 (length (gzip l.stream.cached)) ++ gzip l.stream.cached)
]

module _ {W : Type 0} (os : Ports W) where
  open os use {ip_version_of, spawn, is_alive, terminate_join, kill_process, pid, kill, pause}

  -- `_resolve_listeners`: a host with its version, and `none` if it is no address.
  resolve_listeners : Option Text → Option (List (Text × ℕ))
  resolve_listeners none = some ((codes "0.0.0.0", 4) ∷ (codes "::", 6) ∷ [])
  resolve_listeners (some host) = elim (ip_version_of host) [
    | none ↦ none
    | some version ↦ some ((host, if version == 4 then 4 else 6) ∷ [])
  ]

  -- A process for each listener; one that cannot start raises, and leaves those before it.
  start_processes : ℕ → List (Text × ℕ) → List ℕ → W → Bool × List ℕ × W
  start_processes port [] processes w = (true, processes, w)
  start_processes port ((host, af) ∷ rest) processes w =
      let (started, w') = spawn host af port w in
      elim started [
        | none ↦ (false, processes, w')
        | some p ↦ start_processes port rest (processes ++ (p ∷ [])) w'
      ]

  -- The thread `cachedata` starts with a clean directory, and the program waits.
  with_processes : SocketServerListen → Bool × List ℕ × W → SocketServerListen × W
  with_processes l (false, processes, w) = (record l { processes = processes }, w)
  with_processes l (true, processes, w) =
      (record l { processes = processes; stream = record l.stream { bins = [] } }, pause w)

  -- `start_server`, whose exceptions are caught.
  start_server : SocketServerListen → W → SocketServerListen × W
  start_server l w = elim (resolve_listeners l.host) [
    | none ↦ (l, w)
    | some listeners ↦ with_processes l (start_processes l.port listeners l.processes w)
  ]

  -- One process of `stop_server`.
  stop_process : ℕ → W → W
  stop_process p w =
      if is_alive p w
      then (let w₁ = terminate_join p w in if is_alive p w₁ then kill_process p w₁ else w₁)
      else w

  stop_processes : List ℕ → W → W
  stop_processes [] w = w
  stop_processes (p ∷ ps) w = stop_processes ps (stop_process p w)

  kill_all : List Text → W → W
  kill_all [] w = w
  kill_all (p ∷ ps) w = kill_all ps (kill p w)

  -- `stop_server`: whoever still holds the port is killed.
  pub stop_server : SocketServerListen → W → W
  stop_server l w = let w₁ = stop_processes l.processes w in kill_all (pid l.port w₁) w₁

  abbrev pub fresh : Option Text → ℕ → SocketServerListen
  fresh host port = record { host = host; port = port; processes = []; stream = no_stream }

  answer_pids : SocketServerListen × W → Reply × Listening W
  answer_pids (l, w) = (pids (pid l.port w), record { ss = some l; world = w })

  -- Command 171.
  pub start_listening : Option Text → ℕ → Listening W → Reply × Listening W
  start_listening host port s = elim s.ss [
    | none ↦ answer_pids (start_server (fresh host port) s.world)
    | some l ↦
        let restarted = answer_pids (start_server l s.world) in
        if is_empty (pid l.port s.world) then restarted else answer_pids (l, s.world)
  ]

  -- Command 172.
  pub clean_listening : Listening W → Reply × Listening W
  clean_listening s = elim s.ss [
    | none ↦ (no_server, s)
    | some l ↦
        if is_empty (pid l.port s.world)
        then (no_server, s)
        else (okay, record s { ss = some (record l { stream = cleandata l.stream }) })
  ]

  -- The loop of command 175: is the port free within `n` looks, each with a pause behind it.
  pub await_free : ℕ → ℕ → W → Bool × W
  await_free zero port w = (false, w)
  await_free (suc n) port w =
      let again = await_free n port (pause w) in if is_empty (pid port w) then (true, w) else again

  -- Command 175.
  pub stop_listening : Listening W → Reply × Listening W
  stop_listening s = elim s.ss [
    | none ↦ (not_started, s)
    | some l ↦
        let (stopped, w) = await_free 3 l.port (stop_server l s.world) in
        (if stopped then okay else still_bound, record { ss = none; world = w })
  ]
