-- ===== src/Tests/Served.antt =====
-- A run of a command from the network to its answer.
use socket_server.Prelude.{◌≡◌, refl, inl, true, false, none, some, List, [], ◌∷◌, ◌++◌, arith}
use socket_server.Prelude.Bytes.{Bytes, codes, pack_le32}
use socket_server.Prelude.Int.{pos}
use socket_server.NetUtils.{Completed}
use socket_server.Protocol.{done, raised, and_then, Env, setup, respond, handle}
use socket_server.Protocol.Frames.{idle, IsCut}
use socket_server.Listen.{Ports, Listening}
use socket_server.Handlers.{Services, do_command}
use socket_server.Handlers.Answers.{AnswersSized, handle-sized}

abbrev went_well : Completed
went_well = record { returncode = pos 0; stdout = []; stderr = [] }

-- JSON values are texts, and the world is what was sent.
abbrev echo : Services (List Bytes) Bytes
echo = record {
  loads = λ json. some json;
  dumps = λ json. json;
  compress_gzip = λ b. 31 ∷ b;
  call = λ op json w. done json w;
  has_pcaps = λ json. true;
  replay = λ json w. done json w;
  error_status = λ reason. reason;
  failure = codes "error";
  error = λ reason. reason;
  res = λ json. json;
  wants_gzip = λ json. false;
  read_file = λ path w. done [] w;
  routes = λ w. done [] w;
  version = codes "1.8.1";
  version_details = [];
  apply_upgrade = λ json w. raised w;
  unzip_file = λ json w. done tt w;
  listen_args = λ json. none;
  pid_list = λ ps. [];
  file_arg = λ json. none;
  write_data = λ path b w. done tt w;
  chromium_path = λ json. json;
  chromium_runs = λ path w. true;
  ensure_chromium = λ path w. done true w;
  probe = λ path w. done went_well w;
  install_libraries = λ w. none;
}

abbrev no_ports : Ports (List Bytes)
no_ports = record {
  ip_version_of = λ host. none;
  spawn = λ host af port w. (none, w);
  is_alive = λ p w. false;
  terminate_join = λ p w. w;
  kill_process = λ p w. w;
  pid = λ port w. [];
  kill = λ p w. w;
  pause = λ w. w;
}

abbrev service : Env (Listening (List Bytes))
service = record {
  file_info = λ json. none;
  decompress_gzip = λ zipped. none;
  write_file = λ path file s. raised s;
  sendall = λ answer s. done tt (record s { world = answer ∷ s.world });
  on_data = do_command echo no_ports;
}

abbrev quiet : Listening (List Bytes)
quiet = record { ss = none; world = [] }

-- Command 1 with two bytes, in two chunks.
exec-IsCut :
    IsCut (pack_le32 1 ++ (8 ∷ 9 ∷ [])) (6 ∷ 0 ∷ 0 ∷ 0 ∷ 1 ∷ 0 ∷ []) ((0 ∷ 0 ∷ 8 ∷ 9 ∷ []) ∷ [])
exec-IsCut = record {
  joined = refl;
  header = omega arith;
  chunks = (omega arith, tt);
  fits = omega arith;
}

handle-sized_example :
    (handle service ((6 ∷ 0 ∷ 0 ∷ 0 ∷ 1 ∷ 0 ∷ []) ∷ (0 ∷ 0 ∷ 8 ∷ 9 ∷ []) ∷ []) (idle setup) quiet
      ≡ and_then
          (do_command echo no_ports (pos 1) (8 ∷ 9 ∷ []) (some (codes "tmp")) quiet)
          (λ res_do v. and_then (respond service res_do v) (λ _ u. done (idle setup) u)))
    × AnswersSized (do_command echo no_ports (pos 1) (8 ∷ 9 ∷ []) (some (codes "tmp")) quiet)
handle-sized_example =
    handle-sized echo no_ports service setup 1 (8 ∷ 9 ∷ []) (6 ∷ 0 ∷ 0 ∷ 0 ∷ 1 ∷ 0 ∷ [])
      ((0 ∷ 0 ∷ 8 ∷ 9 ∷ []) ∷ []) quiet refl refl (inl refl) exec-IsCut
