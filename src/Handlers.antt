-- ===== src/Handlers.antt =====
-- socket_server/handlers.py, `do`: the dispatcher behind `on_data` of the TCP handler. JSON texts and
-- values, gzip and the operations that other files define are parameters; the listener is that of
-- `Listen`, so the state is the variable `ss` and the world.
pub mod Answers
use socket_server.Prelude.{
  ℕ, Bool, not, ◌&&◌, Option, none, some, List, ◌++◌, map, ltb, ◌==◌, if◌then◌else◌, length, take,
}
use socket_server.Prelude.Bytes.{Bytes, Text, codes, pack_le32, pack_le64}
use socket_server.Prelude.Int.{ℤ, pos, negsuc, eq_ℕ}
use mathlib.Core.Option
use socket_server.NetUtils.{Completed}
use socket_server.NetUtils.Tables.{has_part}
use socket_server.Protocol.{Outcome, done, leave, raised, M, ◌>>=◌, ◌>>◌, pure, or_throw}
use socket_server.Listen.{
  Ports, Listening, SocketServerListen, Reply, pids, okay, no_server, not_started, still_bound,
  content, is_empty, start_listening, clean_listening, transfer, stop_listening,
}

-- The operations that take a JSON object and answer with a JSON value.
pub data Operation : Type 0 where
  exec_cmd tcpdump_start tcpdump_stop isfile isdir mkdir mtu getsize python_cmd ensure_command :
      Operation
  extract_flows boce : Operation

-- What `do` calls. `J` stands for JSON values.
pub record Services (W J : Type 0) : Type 0 where
  pub loads : Bytes → Option J
  pub dumps : J → Bytes
  pub compress_gzip : Bytes → Bytes
  pub call : Operation → J → M W J
  pub has_pcaps : J → Bool
  pub replay : J → M W J
  pub error_status : Text → J
  pub failure : J
  pub error : Text → J
  pub res : J → J
  pub wants_gzip : J → Bool
  pub read_file : Option Text → M W Bytes
  pub routes : M W J
  pub version : J
  pub version_details : J
  pub apply_upgrade : J → M W Bytes
  pub unzip_file : J → M W (Unit {0})
  pub listen_args : J → Option (Option Text × ℕ)
  pub pid_list : List Text → J
  pub file_arg : J → Option Text
  pub write_data : Text → Bytes → M W (Unit {0})
  pub chromium_path : J → Text
  pub chromium_runs : Text → W → Bool
  pub ensure_chromium : Text → M W Bool
  pub probe : Text → M W Completed
  pub install_libraries : W → Option (M W Completed)

-- `struct.pack("i", n)` raises on a length that does not fit.
pub pack_size : ℕ → Option Bytes
pack_size n = if ltb n 2147483648 then some (pack_le32 n) else none

-- The answer with its length before it, as a signed word.
pub with_length : Bytes → Option Bytes
with_length body = Option.map (λ (p : Bytes). p ++ body) (pack_size (length body))

-- The same with `struct.pack("<Q", …)`.
with_long : Bytes → Bytes
with_long body = pack_le64 (length body) ++ body

-- A statement on the world, beside the variable `ss`.
pub beside : {W A : Type 0} → Option SocketServerListen → Outcome W A → Outcome (Listening W) A
beside ss (done a w) = done a (record { ss = ss; world = w })
beside ss (leave w) = leave (record { ss = ss; world = w })
beside ss (raised w) = raised (record { ss = ss; world = w })

abbrev on_world : {W A : Type 0} → M W A → M (Listening W) A
on_world m s = beside s.ss (m s.world)

module _ {W J : Type 0} (sv : Services W J) where
  open sv use {
    loads, dumps, compress_gzip, call, has_pcaps, replay, error_status, failure, error, res,
    wants_gzip, read_file, routes, version, version_details, apply_upgrade, unzip_file, listen_args,
    pid_list, file_arg, write_data, chromium_path, chromium_runs, ensure_chromium, probe,
    install_libraries,
  }

  -- `except Exception as e` of command 0.
  or_failure : Outcome W Bytes → Outcome W Bytes
  or_failure (done a w) = done a w
  or_failure (leave w) = done (dumps failure) w
  or_failure (raised w) = done (dumps failure) w

  -- Command 0.
  send_packets : Bytes → M W Bytes
  send_packets json w = or_failure (
      (do
        args ← or_throw (loads json)
        (if has_pcaps args
            then (do stats ← replay args; pure (dumps stats))
            else pure (
                dumps (
                  error_status
                    (codes "Missing required parameters: uplink_iface or downlink_iface")))))
        w)

  -- The commands 5 to 11 and 18.
  answer_res : Operation → Bytes → M W (Option Bytes)
  answer_res op json = do
    args ← or_throw (loads json)
    response ← call op args
    pure (some (dumps (res response)))

  -- The commands 1 and 16.
  pub answer_zipped : Operation → Bytes → M W (Option Bytes)
  answer_zipped op json = do
    args ← or_throw (loads json)
    response ← call op args
    answer ← or_throw (with_length (compress_gzip (dumps response)))
    pure (some answer)

  -- Command 200, and the end of command 131.
  pub answer_sized : Operation → J → M W (Option Bytes)
  answer_sized op args = do
    response ← call op args
    answer ← or_throw (with_length (dumps response))
    pure (some answer)

  -- Command 3.
  pub download : Bytes → Option Text → M W (Option Bytes)
  download json filepath = do
    args ← or_throw (loads json)
    file ← read_file filepath
    pure (some (with_long (if wants_gzip args then compress_gzip file else file)))

  pub boce_refused : Text → M W (Option Bytes)
  boce_refused reason = do
    answer ← or_throw (with_length (dumps (error reason)))
    pure (some answer)

  -- After the installation of the libraries the browser is tried once more.
  pub boce_again : J → M W (Option Bytes)
  boce_again args = do
    recheck ← probe (chromium_path args)
    (if eq_ℕ recheck.returncode 0
        then answer_sized boce args
        else boce_refused (take 200 recheck.stderr))

  pub boce_install : J → Option (M W Completed) → M W (Option Bytes)
  boce_install args none = answer_sized boce args
  boce_install args (some install) = install >>= λ _. boce_again args

  pub boce_probed : J → M W (Option Bytes)
  boce_probed args = do
    test_result ← probe (chromium_path args)
    (if not (eq_ℕ test_result.returncode 0)
          && has_part (codes "cannot open shared object file") test_result.stderr
        then (λ w. boce_install args (install_libraries w) w)
        else answer_sized boce args)

  pub boce_args : J → M W (Option Bytes)
  boce_args args w =
      if chromium_runs (chromium_path args) w
      then boce_probed args w
      else (do
        there ← ensure_chromium (chromium_path args)
        (if there then boce_probed args else boce_refused (codes "chromium")))
          w

  -- Command 131.
  pub start_boce : Bytes → M W (Option Bytes)
  start_boce json = or_throw (loads json) >>= boce_args

  -- The commands 14 to 16, 18 to 20 and 200; any other has no answer.
  pub do_local : ℕ → Bytes → M W (Option Bytes)
  do_local datatype json =
      if datatype == 14
      then pure (some (dumps version))
      else if datatype == 19
      then pure (some (dumps version_details))
      else if datatype == 20
      then (do args ← or_throw (loads json); answer ← apply_upgrade args; pure (some answer))
      else if datatype == 15
      then (do args ← or_throw (loads json); unzip_file args; pure (some (codes "ok")))
      else if datatype == 16
      then answer_zipped python_cmd json
      else if datatype == 18
      then answer_res ensure_command json
      else if datatype == 200
      then or_throw (loads json) >>= answer_sized extract_flows
      else pure none

  -- The commands that do not touch the listener.
  pub do_service : ℕ → Bytes → Option Text → M W (Option Bytes)
  do_service datatype json filepath =
      if datatype == 0
      then (do answer ← send_packets json; pure (some answer))
      else if datatype == 1
      then answer_zipped exec_cmd json
      else if datatype == 3
      then download json filepath
      else if datatype == 4
      then (do response ← routes; pure (some (dumps response)))
      else if datatype == 5
      then answer_res tcpdump_start json
      else if datatype == 6
      then answer_res tcpdump_stop json
      else if datatype == 7
      then answer_res isfile json
      else if datatype == 8
      then answer_res isdir json
      else if datatype == 9
      then answer_res mkdir json
      else if datatype == 10
      then answer_res mtu json
      else if datatype == 11
      then answer_res getsize json
      else if datatype == 131
      then start_boce json
      else do_local datatype json

  -- The answers of the commands to the listener; those of 174 are framed already.
  encode_reply : Reply → Bytes
  encode_reply (pids ps) = dumps (pid_list ps)
  encode_reply okay = codes "ok"
  encode_reply no_server = codes "error"
  encode_reply not_started = dumps (error (codes "not started"))
  encode_reply still_bound = dumps (error (codes "still bound"))
  encode_reply (content bytes) = bytes

  abbrev replied : Reply × Listening W → Outcome (Listening W) (Option Bytes)
  replied (a, s) = done (some (encode_reply a)) s

  module _ (os : Ports W) where
    -- Command 173.
    save_data : Bytes → M (Listening W) (Option Bytes)
    save_data json s = elim (loads json) [
      | none ↦ raised s
      | some args ↦ elim s.ss [
        | none ↦ done (some (encode_reply no_server)) s
        | some l ↦
            if is_empty (Ports.pid os l.port s.world)
            then done (some (encode_reply no_server)) s
            else (do
              file ← or_throw (file_arg args)
              on_world (write_data file l.stream.cached)
              pure (some (encode_reply okay)))
                s
      ]
    ]

    -- Command 171; its arguments are read only for a new listener.
    start_command : Bytes → M (Listening W) (Option Bytes)
    start_command json s = elim (loads json) [
      | none ↦ raised s
      | some args ↦ elim s.ss [
        | some l ↦ replied (start_listening os none 0 s)
        | none ↦ elim (listen_args args) [
          | none ↦ raised s
          | some given ↦ replied (start_listening os given.0 given.1 s)
        ]
      ]
    ]

    -- `do`, on the type of the command that is no negative number.
    pub do_known : ℕ → Bytes → Option Text → M (Listening W) (Option Bytes)
    do_known datatype json filepath s =
        if datatype == 171
        then start_command json s
        else if datatype == 172
        then replied (clean_listening os s)
        else if datatype == 173
        then save_data json s
        else if datatype == 174
        then replied (transfer compress_gzip s, s)
        else if datatype == 175
        then replied (stop_listening os s)
        else on_world (do_service datatype json filepath) s

    pub do_command : ℤ → Bytes → Option Text → M (Listening W) (Option Bytes)
    do_command (pos datatype) json filepath s = do_known datatype json filepath s
    do_command (negsuc n) json filepath s = done none s
