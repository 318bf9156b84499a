-- ===== src/Tests/Transfer.antt =====
-- Runs of the TCP handler of socket_server/protocol.py.
use socket_server.Prelude.{◌≡◌, refl, inl, inr, false, some, List, [], ◌∷◌, arith, drop}
use socket_server.Prelude.Bytes.{Bytes}
use socket_server.Protocol.{done, FileInfo, Env, setup, handle}
use socket_server.Protocol.Frames.{idle, IsCut, Sent, received, dispatch_all, handle-received}
use socket_server.Protocol.Invariant.{IsValid, IfDone, handle-IsValid}
use socket_server.Protocol.Upload.{upload, upload_effect, dispatch_all-upload}

-- A world that keeps what was sent and what was written, the last first.
abbrev log_env : Env (List Bytes)
log_env = record {
  file_info = λ json. some (record { filepath = some json; gzip = false });
  decompress_gzip = λ zipped. some (drop 1 zipped);
  write_file = λ path file w. done tt (file ∷ w);
  sendall = λ answer w. done tt (answer ∷ w);
  on_data = λ datatype data_bytes path w. done (some data_bytes) w;
}

-- Command 1 with two bytes of data, and its frame in two chunks.
abbrev ping : Bytes
ping = 1 ∷ 0 ∷ 0 ∷ 0 ∷ 7 ∷ 8 ∷ []

abbrev ping_first : Bytes
ping_first = 6 ∷ 0 ∷ 0 ∷ 0 ∷ 1 ∷ 0 ∷ []

abbrev ping_more : List Bytes
ping_more = (0 ∷ 0 ∷ 7 ∷ []) ∷ (8 ∷ []) ∷ []

ping-IsCut : IsCut ping ping_first ping_more
ping-IsCut = record {
  joined = refl;
  header = omega arith;
  chunks = (omega arith, (omega arith, tt));
  fits = omega arith;
}

abbrev ping_sent : Sent
ping_sent = record { payload = ping; first = ping_first; more = ping_more; cut = ping-IsCut }

handle-received_example :
    handle log_env (received (ping_sent ∷ ping_sent ∷ [])) (idle setup) []
    ≡ dispatch_all log_env (ping ∷ ping ∷ []) (idle setup) []
handle-received_example = handle-received log_env (ping_sent ∷ ping_sent ∷ []) setup []

setup-IsValid : IsValid setup
setup-IsValid = record { frame = inl (refl, refl); file = λ e. inr refl }

handle-IsValid_example : IfDone IsValid (handle log_env (ping_first ∷ ping_more) setup [])
handle-IsValid_example = handle-IsValid log_env (ping_first ∷ ping_more) setup [] setup-IsValid

abbrev parts : List Bytes
parts = (5 ∷ []) ∷ (6 ∷ 7 ∷ []) ∷ []

abbrev info : FileInfo
info = record { filepath = some (9 ∷ []); gzip = false }

dispatch_all-upload_example :
    dispatch_all log_env (upload (9 ∷ []) parts) (record setup { bin_recv_flag = false }) []
    ≡ upload_effect log_env info (5 ∷ 6 ∷ 7 ∷ []) (record setup { bin_recv_flag = false }) []
dispatch_all-upload_example =
    dispatch_all-upload log_env info (9 ∷ []) parts setup [] refl (omega arith, (omega arith, tt))
      (omega arith) (omega arith)
