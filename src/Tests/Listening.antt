-- ===== src/Tests/Listening.antt =====
-- Runs of the listener, of the waits, of the environment of a command and of the unit file.
use socket_server.Prelude.{
  ℕ, Bool, ◌+◌, ◌-◌, ◌≡◌, refl, ◌↔◌, true, false, Option, none, some, List, [], ◌∷◌, ◌++◌, arith,
  leb, ◌==◌, if◌then◌else◌, length, concat,
}
use socket_server.Prelude.Bytes.{Bytes, Text, codes, eqb, pack_le64}
use socket_server.Prelude.Int.{ℤ, pos}
use socket_server.Prelude.Dict.{Dict, lookup}
use socket_server.Listen.{
  Stream, no_stream, get_next, add_hand, cachedata, clean_data, handle_conn, Ports,
  SocketServerListen, content, transfer, stop_listening,
}
use socket_server.Listen.Gathered.{
  Gathering, receives, caches, cleans, Steps, stop, step, waiting, Steps-transfer,
}
use socket_server.Listen.Settled.{moves, IsSettled, all_data, all_files, moves-IsSettled}
use socket_server.Listen.Stopped.{StopLeaves, stop_listening-StopLeaves}
use socket_server.NetUtils.{Clock, wait_for, clean_subprocess_env}
use socket_server.NetUtils.Waits.{Ends, wait_for-Ends}
use socket_server.NetUtils.Environment.{IsClean, lookup-clean_subprocess_env}
use socket_server.Supervisor.{Machine, ensure_unit_correct}
use socket_server.Supervisor.Unit.{Heals, ensure_unit_correct-Heals}

abbrev begun : Gathering
begun = record { stream = no_stream; since = [] }

abbrev received : Gathering
received = record begun {
  stream = handle_conn (some (7 ∷ 8 ∷ []) ∷ []) no_stream;
  since = 7 ∷ 8 ∷ [];
}

abbrev got_it : Gathering
got_it = record received { stream = cachedata false received.stream }

abbrev added : Gathering
added = record got_it { stream = cachedata false got_it.stream }

abbrev emptied : Gathering
emptied = record { stream = clean_data added.stream; since = waiting added.stream }

abbrev at_last : Gathering
at_last = record emptied { stream = cachedata false emptied.stream }

-- The data is emptied while the thread has a chunk in hand, which it then adds.
abbrev five_steps : Steps begun at_last
five_steps = step begun received at_last (receives 7 (8 ∷ []) begun) (
    step received got_it at_last (caches false received) (
      step got_it added at_last (caches false got_it) (
        step added emptied at_last (cleans added)
          (step emptied at_last at_last (caches false emptied) (stop at_last)))))

Steps-transfer_example :
    (d : Bytes) × (transfer
        (λ b. b)
        (record {
          ss = some (record { host = none; port = 30001; processes = []; stream = at_last.stream });
          world = tt;
        })
      ≡ content (pack_le64 (length d) ++ d))
    × (d ++ waiting at_last.stream ≡ 7 ∷ 8 ∷ [])
unfolding cachedata add_hand get_next clean_data handle_conn
Steps-transfer_example =
    Steps-transfer {W = Unit {0}} begun at_last five_steps refl (λ b. b) none 30001 [] tt

abbrev two_chunks : Stream
two_chunks = record no_stream { q = (1 ∷ []) ∷ (2 ∷ 3 ∷ []) ∷ [] }

-- The second call of `get` raises.
abbrev one_failure : List Bool
one_failure =
    false ∷ false ∷ false ∷ true ∷ false ∷ false ∷ false ∷ false ∷ false ∷ false ∷ false ∷ []

moves-IsSettled_example :
    IsSettled (moves one_failure two_chunks)
    × ((moves one_failure two_chunks).cached ≡ all_data two_chunks)
    × (concat (moves one_failure two_chunks).bins ≡ all_files two_chunks)
moves-IsSettled_example = moves-IsSettled one_failure two_chunks (omega arith)

-- A system in which the world is the number of pauses until the port is free.
abbrev slow_port : Ports ℕ
slow_port = record {
  ip_version_of = λ host. some 4;
  spawn = λ host af port w. (some 1, w);
  is_alive = λ p w. false;
  terminate_join = λ p w. w;
  kill_process = λ p w. w;
  pid = λ port w. if w == 0 then [] else codes "77" ∷ [];
  kill = λ p w. w;
  pause = λ w. w - 1;
}

abbrev listener : SocketServerListen
listener = record { host = none; port = 30001; processes = 1 ∷ []; stream = no_stream }

stop_listening-StopLeaves_example :
    StopLeaves slow_port
      (record { ss = some listener; world = 2 })
      (stop_listening slow_port (record { ss = some listener; world = 2 }))
stop_listening-StopLeaves_example =
    stop_listening-StopLeaves slow_port (record { ss = some listener; world = 2 })

-- The world is the time.
abbrev plain_clock : Clock ℕ
plain_clock = record { now = λ w. w; sleep = λ n w. w + n }

abbrev look : ℕ → Option ℕ × ℕ
look w = (some w, w)

wait_for-Ends_example :
    Ends plain_clock look (λ a. leb 6 a) 0 2 10 0 (wait_for plain_clock look (λ a. leb 6 a) 2 10 0)
wait_for-Ends_example =
    wait_for-Ends plain_clock look (λ a. leb 6 a)
      (record { polled = λ w. omega arith; slept = λ n w. omega arith }) 2 10 0 (omega arith)

abbrev inherited : Dict Text
inherited = (codes "_PYI_HOME", codes "x") ∷ (codes "PATH", codes "/tmp/_MEI1/bin") ∷ []

lookup-clean_subprocess_env_example :
    (lookup (codes "PATH") (clean_subprocess_env (some (codes "/tmp/_MEI1")) inherited none)
      ≡ some (codes "/tmp/_MEI1/bin"))
    ↔ ((lookup (codes "PATH") inherited ≡ some (codes "/tmp/_MEI1/bin"))
        × IsClean (some (codes "/tmp/_MEI1")) (codes "PATH") (codes "/tmp/_MEI1/bin"))
unfolding eqb
lookup-clean_subprocess_env_example =
    lookup-clean_subprocess_env (some (codes "/tmp/_MEI1")) inherited none (codes "PATH")
      (codes "/tmp/_MEI1/bin") ((refl, tt), (tt, tt))

abbrev deployed : Machine ℕ
deployed = record {
  binaries = record { current_runs = true; fallback_runs = false; own = none };
  unit = some (codes "ExecStart=/opt/socket/versions/1.7.0/socket_server serve");
  writable = true;
  config = none;
  world = 0;
}

abbrev count_calls : List Text → ℕ → ℤ × ℕ
count_calls args w = (pos 0, w + 1)

ensure_unit_correct-Heals_example :
    Heals count_calls deployed (ensure_unit_correct count_calls deployed)
    × (ensure_unit_correct count_calls (ensure_unit_correct count_calls deployed)
        ≡ ensure_unit_correct count_calls deployed)
ensure_unit_correct-Heals_example = ensure_unit_correct-Heals count_calls deployed
