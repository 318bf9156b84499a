-- ===== src/Protocol/Upload.antt =====
-- socket_server/protocol.py, lines 76 to 119: a file that is sent by commands 21 to 24.
use socket_server.Prelude.{
  ℕ, ◌+◌, ◌≤◌, ◌<◌, ◌≡◌, refl, ap, ◌∙◌, inl, inr, true, false, Option, some, List, [], ◌∷◌, ◌++◌,
  append_assoc, arith, ltb, if◌then◌else◌, ltb→lt, Bool-cases, length, concat, length-append,
}
use socket_server.Prelude.Bytes.{Bytes, codes, le64, pack_le32, pack_le64}
use socket_server.Prelude.Int.{to_signed}
use socket_server.Protocol.{
  Conn, and_then-pure, and_then_assoc, and_then_cong, done, M, and_then, ◌>>=◌, ◌>>◌, pure,
  FileInfo, Env, receive_name, receive_length, receive_content, write_upload, dispatch_command,
  dispatch, unmark_empty, unpacked, or_throw,
}
use socket_server.Protocol.Frames.{last_chunk, dispatch_all, AreChunks}

-- The payload of a command with its data.
abbrev pub command : ℕ → Bytes → Bytes
command n body = pack_le32 n ++ body

-- The payloads of an upload: the name, the length, the content in parts, and the order to write.
abbrev pub upload : Bytes → List Bytes → List Bytes
upload json parts =
    command 21 json
    ∷ command 22 (pack_le64 (length (concat parts)))
    ∷ (parts ++ (command 24 [] ∷ []))

le64-pack_le64 : (n : ℕ) → n < 18446744073709551616 → le64 (pack_le64 n) ≡ n
le64-pack_le64 n h = omega arith

-- Files of the upload protocol, over any environment: the content is unpacked if the client said so; "^$" stands for an empty file.
module _ {W : Type 0} (env : Env W) where
  abbrev pub written : FileInfo → Bytes → Option Bytes
  written fi content = if fi.gzip then env.decompress_gzip content else some content

  -- What a whole upload does to the world: four acknowledgements, and the file between the last two.
  abbrev pub upload_effect : FileInfo → Bytes → Conn → M W Conn
  upload_effect fi content c = do
    env.sendall (codes "21 ok")
    env.sendall (codes "22 ok")
    env.sendall (codes "23 ok")
    file ← or_throw (written fi content)
    env.write_file fi.filepath (unmark_empty file)
    env.sendall (codes "24 ok")
    pure (record c {
      filepath = fi.filepath;
      gzip = some fi.gzip;
      content = [];
      file_length = length content;
      bufsize = 1024;
    })

  -- Inside a file every frame is content, until the announced length is reached.
  content_step :
      (c : Conn) (got part : Bytes) (n : ℕ) (w : W)
      → length got + length part < n
      → dispatch env (record c { content = got; file_length = n; bin_recv_flag = true }) part w
        ≡ done (record c { content = got ++ part; file_length = n; bin_recv_flag = true }) w
  unfolding dispatch dispatch_command receive_content
  content_step c got part n w h = ground (arith, length-append got part)

  content_last :
      (c : Conn) (got part : Bytes) (n : ℕ) (w : W)
      → length got + length part ≡ n
      → dispatch env (record c { content = got; file_length = n; bin_recv_flag = true }) part w
        ≡ (env.sendall (codes "23 ok")
              >> pure (record c {
                content = got ++ part;
                file_length = n;
                bin_recv_flag = false;
                bufsize = 1024;
              }))
            w
  unfolding dispatch dispatch_command receive_content
  content_last c got part n w h = ground (arith, length-append got part)

  content_parts :
      (parts : List Bytes) (c : Conn) (got : Bytes) (n : ℕ) (rest : List Bytes) (w : W)
      → AreChunks parts
      → length got + length (concat parts) ≡ n
      → length got < n
      → dispatch_all env
          (parts ++ rest)
          (record c { content = got; file_length = n; bin_recv_flag = true })
          w
        ≡ and_then (env.sendall (codes "23 ok") w) (λ _. dispatch_all env rest (record c {
          content = got ++ concat parts;
          file_length = n;
          bin_recv_flag = false;
          bufsize = 1024;
        }))
  content_parts [] c got n rest w h e lt = absurd (omega arith)
  content_parts (p ∷ ps) c got n rest w h e lt = elim (Bool-cases (ltb (length got + length p) n)) [
    | inl more ↦
        ap (λ r. and_then r (dispatch_all env (ps ++ rest)))
          (content_step c got p n w (ltb→lt _ _ more))
        ∙ content_parts ps c (got ++ p) n rest w h.1
            (omega (arith, length-append got p, length-append p (concat ps)))
            (omega (arith, length-append got p, ltb→lt _ _ more))
        ∙ rw (append_assoc got p (concat ps))
    | inr whole ↦
        let content = got ++ concat (p ∷ ps) in
        let reached : n ≤ length got + length p = ground arith in
        let all_here =
          last_chunk got p ps content h.1 refl
            (omega (arith, length-append got p, length-append got (concat (p ∷ ps)))) in
        ap (λ r. and_then r (dispatch_all env (ps ++ rest)))
          (content_last c got p n w (
            omega (
              arith,
              ap length all_here.1,
              length-append got p,
              length-append got (concat (p ∷ ps)),
            )))
        ∙ and_then_assoc (env.sendall (codes "23 ok") w) _ _
        ∙ ap
            (λ qs. and_then (env.sendall (codes "23 ok") w) (λ _.
              dispatch_all env (qs ++ rest) (record c {
                content = got ++ p;
                file_length = n;
                bin_recv_flag = false;
                bufsize = 1024;
              })))
            all_here.0
        ∙ ap
            (λ s. and_then (env.sendall (codes "23 ok") w) (λ _.
              dispatch_all env rest
                (record c { content = s; file_length = n; bin_recv_flag = false; bufsize = 1024 })))
            all_here.1
  ]

  sent_command :
      (c : Conn) (json : Bytes) (w : W)
      → dispatch env (record c { bin_recv_flag = false }) (command 21 json) w
        ≡ receive_name env (record c { bin_recv_flag = false }) json w
  unfolding dispatch dispatch_command to_signed
  sent_command c json w = ground arith

  sent_length :
      (c : Conn) (n : ℕ) (w : W)
      → n < 18446744073709551616
      → dispatch env (record c { bin_recv_flag = false }) (command 22 (pack_le64 n)) w
        ≡ (env.sendall (codes "22 ok")
              >> pure (record c {
                file_length = n;
                content = [];
                bin_recv_flag = true;
                bufsize = 102400000;
              }))
            w
  unfolding dispatch dispatch_command to_signed receive_length
  sent_length c n w h = rw (le64-pack_le64 n h)

  sent_write :
      (c : Conn) (w : W)
      → dispatch env (record c { bin_recv_flag = false }) (command 24 []) w
        ≡ write_upload env (record c { bin_recv_flag = false }) w
  unfolding dispatch dispatch_command to_signed
  sent_write c w = refl

  sent_name :
      (fi : FileInfo) (json : Bytes) (c : Conn) (w : W)
      → env.file_info json ≡ some fi
      → dispatch env (record c { bin_recv_flag = false }) (command 21 json) w
        ≡ (env.sendall (codes "21 ok")
              >> pure
                  (record c { bin_recv_flag = false; filepath = fi.filepath; gzip = some fi.gzip }))
            w
  unfolding receive_name or_throw
  sent_name fi json c w known = sent_command c json w ∙ rw known

  -- The last payload of an upload, when the content is complete.
  finish_upload :
      (fi : FileInfo) (c : Conn) (content : Bytes) (w : W)
      → dispatch_all env
          (command 24 [] ∷ [])
          (record c {
            filepath = fi.filepath;
            gzip = some fi.gzip;
            content = content;
            bin_recv_flag = false;
          })
          w
        ≡ (do
          file ← or_throw (written fi content)
          env.write_file fi.filepath (unmark_empty file)
          env.sendall (codes "24 ok")
          pure (record c {
            filepath = fi.filepath;
            gzip = some fi.gzip;
            content = [];
            bin_recv_flag = false;
          }))
            w
  unfolding write_upload unpacked
  finish_upload fi c content w =
      ap (λ r. and_then r (λ a w. done a w))
        (sent_write (record c { filepath = fi.filepath; gzip = some fi.gzip; content = content }) w)
      ∙ and_then-pure _

  -- An upload of at least one byte and less than 2^64, in any parts that are not empty, whose name
  -- can be read, does exactly this when no file is being received, whatever the environment does:
  -- three acknowledgements, the file written under the announced name with the parts joined (and
  -- unpacked, if so announced; "^$" as an empty file), and a fourth acknowledgement. It stops
  -- where a call fails.
  pub dispatch_all-upload :
      (fi : FileInfo) (json : Bytes) (parts : List Bytes) (c : Conn) (w : W)
      → env.file_info json ≡ some fi
      → AreChunks parts
      → 0 < length (concat parts)
      → length (concat parts) < 18446744073709551616
      → dispatch_all env (upload json parts) (record c { bin_recv_flag = false }) w
        ≡ upload_effect fi (concat parts) (record c { bin_recv_flag = false }) w
  dispatch_all-upload fi json parts c w known h some_bytes fits =
      let n = length (concat parts) in
      let rest = command 24 [] ∷ [] in
      let named = record c { bin_recv_flag = false; filepath = fi.filepath; gzip = some fi.gzip } in
      let started = record named {
        file_length = n;
        content = [];
        bin_recv_flag = true;
        bufsize = 102400000;
      } in
      ap (λ r. and_then r (dispatch_all env (command 22 (pack_le64 n) ∷ (parts ++ rest))))
        (sent_name fi json c w known)
      ∙ and_then_assoc (env.sendall (codes "21 ok") w) _ _
      ∙ and_then_cong (env.sendall (codes "21 ok") w) _ _ λ _ w₁.
        ap (λ r. and_then r (dispatch_all env (parts ++ rest))) (sent_length named n w₁ fits)
        ∙ and_then_assoc (env.sendall (codes "22 ok") w₁) _ _
        ∙ and_then_cong (env.sendall (codes "22 ok") w₁) _ _ λ _ w₂.
          content_parts parts started [] n rest w₂ h (omega arith) some_bytes
          ∙ and_then_cong (env.sendall (codes "23 ok") w₂) _ _
              λ _ w₃. finish_upload fi (record started { bufsize = 1024 }) (concat parts) w₃
