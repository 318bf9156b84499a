-- ===== src/Protocol.antt =====
-- socket_server/protocol.py: `MyTCPHandler`, the TCP handler that cuts the stream of received
-- chunks into frames, runs the upload protocol (commands 21 to 24) and hands every other command
-- to `on_data`. The connection's fields and the loop's variables are one record; what a call did
-- is a result that says how the loop goes on.
pub mod Frames
pub mod Invariant
pub mod Upload
pub mod Commands
use socket_server.Prelude.{
  ℕ, ◌≡◌, refl, Bool, true, false, Option, none, some, List, [], ◌∷◌, ◌++◌, ltb, ◌==◌,
  if◌then◌else◌, length, drop,
}
use socket_server.Prelude.Bytes.{Bytes, Text, codes, eqb, le32, le64}
use socket_server.Prelude.Int.{ℤ, pos, to_signed, eq_ℕ, ltb_ℕℤ}

-- `self.*` of `setup` and the local variables of `handle`. `gzip` is not set before the first
-- command 21: a read of it then raises AttributeError.
pub record Conn : Type 0 where
  pub filepath : Option Text
  pub gzip : Option Bool
  pub content : Bytes
  pub bin_recv_flag : Bool
  pub file_length : ℕ
  pub bufsize : ℕ
  pub datatotal : Bytes
  pub data_len : ℤ

-- How a statement ends: with a value, by leaving the loop (end of stream, a short first packet,
-- ConnectionResetError), or by another exception, which `handle` logs. The last two close the
-- connection.
pub data Outcome (W A : Type 0) : Type 0 where
  done : A → W → Outcome W A
  leave : W → Outcome W A
  raised : W → Outcome W A

abbrev pub M : Type 0 → Type 0 → Type 0
M W A = W → Outcome W A

abbrev pub and_then : {W A B : Type 0} → Outcome W A → (A → M W B) → Outcome W B
and_then (done a w) f = f a w
and_then (leave w) f = leave w
and_then (raised w) f = raised w

pub and_then-pure : {W A : Type 0} (r : Outcome W A) → and_then r (λ a w. done a w) ≡ r
and_then-pure (done a w) = refl
and_then-pure (leave w) = refl
and_then-pure (raised w) = refl

pub and_then_assoc :
    {W A B C : Type 0} (r : Outcome W A) (f : A → M W B) (g : B → M W C)
    → and_then (and_then r f) g ≡ and_then r (λ a w. and_then (f a w) g)
and_then_assoc (done a w) f g = refl
and_then_assoc (leave w) f g = refl
and_then_assoc (raised w) f g = refl

pub and_then_cong :
    {W A B : Type 0} (r : Outcome W A) (f g : A → M W B)
    → ((a : A) (w : W) → f a w ≡ g a w)
    → and_then r f ≡ and_then r g
and_then_cong (done a w) f g h = h a w
and_then_cong (leave w) f g h = refl
and_then_cong (raised w) f g h = refl

infixl 5 ◌>>=◌ ◌>>◌
abbrev pub ◌>>=◌ : {W A B : Type 0} → M W A → (A → M W B) → M W B
◌>>=◌ m f w = and_then (m w) f

abbrev pub ◌>>◌ : {W B : Type 0} → M W (Unit {0}) → M W B → M W B
m >> k = m >>= λ _. k

abbrev pub pure : {W A : Type 0} → A → M W A
pure a w = done a w

abbrev throw : {W A : Type 0} → M W A
throw w = raised w

-- What command 21 reads from its JSON object: `filepath` (null if absent) and whether `gzip` is
-- true.
pub record FileInfo : Type 0 where
  pub filepath : Option Text
  pub gzip : Bool

-- What the handler calls: `json.loads` with the two `get`s, `gzip.decompress` (none: it raised),
-- the file system, the socket and `on_data`. `W` is the world that the calls change.
pub record Env (W : Type 0) : Type 0 where
  pub file_info : Bytes → Option FileInfo
  pub decompress_gzip : Bytes → Option Bytes
  pub write_file : Option Text → Bytes → M W (Unit {0})
  pub sendall : Bytes → M W (Unit {0})
  pub on_data : ℤ → Bytes → Option Text → M W (Option Bytes)

-- `setup`, and the start of `handle`.
abbrev pub setup : Conn
setup = record {
  filepath = some (codes "tmp");
  gzip = none;
  content = [];
  bin_recv_flag = false;
  file_length = 0;
  bufsize = 10240;
  datatotal = [];
  data_len = pos 0;
}

-- `struct.unpack("i", data[:4])[0]`
abbrev pub unpack_i : Bytes → ℤ
unpack_i b = to_signed (le32 b)

-- The two bytes "^$" stand for an empty file.
pub unmark_empty : Bytes → Bytes
unfolding eqb
unmark_empty b = if eqb b (codes "^$") then [] else b

-- A call that raises, as a statement.
unfoldable pub or_throw : {W A : Type 0} → Option A → M W A
or_throw none = throw
or_throw (some a) = pure a

module _ {W : Type 0} (env : Env W) where
  open env use {file_info, decompress_gzip, write_file, sendall, on_data}

  -- Command 21: the name of the file that will be uploaded.
  pub receive_name : Conn → Bytes → M W Conn
  receive_name c data_bytes = do
    fileinfo ← or_throw (file_info data_bytes)
    sendall (codes "21 ok")
    pure (record c { filepath = fileinfo.filepath; gzip = some fileinfo.gzip })

  -- Command 22: the length of the file. `struct.unpack("<Q", data)` raises unless there are
  -- exactly 8 bytes.
  pub receive_length : Conn → Bytes → M W Conn
  receive_length c data_bytes =
      if ltb (length data_bytes) 8
      then pure c
      else if length data_bytes == 8
      then (do
        sendall (codes "22 ok")
        pure (record c {
          file_length = le64 data_bytes;
          content = [];
          bin_recv_flag = true;
          bufsize = 102400000;
        }))
      else throw

  -- Command 23, and every frame while a file is being received.
  pub receive_content : Conn → Bytes → M W Conn
  receive_content c data_bytes =
      let content = c.content ++ data_bytes in
      let closed = record c { content = content; bufsize = 1024; bin_recv_flag = false } in
      if length content == c.file_length
      then (do sendall (codes "23 ok"); pure closed)
      else if ltb c.file_length (length content)
      then throw
      else pure (record c { content = content })

  -- `decompress_gzip(self.content) if self.gzip else self.content`
  unpacked : Conn → Option Bytes
  unpacked c = elim c.gzip [
    | none ↦ none
    | some zipped ↦ if zipped then decompress_gzip c.content else some c.content
  ]

  -- Command 24: write the file.
  pub write_upload : Conn → M W Conn
  write_upload c = do
    str_decompress_gzip ← or_throw (unpacked c)
    write_file c.filepath (unmark_empty str_decompress_gzip)
    sendall (codes "24 ok")
    pure (record c { content = [] })

  -- `except Exception` round a send: whatever it raised is logged.
  abbrev swallow : {A : Type 0} → Outcome W A → (W → Outcome W (Unit {0})) → Outcome W (Unit {0})
  swallow (done a w) retry = done tt w
  swallow (leave w) retry = retry w
  swallow (raised w) retry = retry w

  -- The answer is sent, and once more three seconds after a failure.
  pub respond : Option Bytes → M W (Unit {0})
  respond none w = done tt w
  respond (some []) w = done tt w
  respond (some (b ∷ bs)) w =
      swallow (sendall (b ∷ bs) w) λ w'. swallow (sendall (b ∷ bs) w') (λ w''. done tt w'')

  pub call_on_data : Conn → ℤ → Bytes → M W Conn
  call_on_data c datatype data_bytes = do
    res_do ← on_data datatype data_bytes c.filepath
    respond res_do
    pure c

  pub dispatch_command : Conn → ℤ → Bytes → M W Conn
  dispatch_command c datatype data_bytes =
      if eq_ℕ datatype 21
      then receive_name c data_bytes
      else if eq_ℕ datatype 22
      then receive_length c data_bytes
      else if eq_ℕ datatype 23
      then receive_content c data_bytes
      else if eq_ℕ datatype 24
      then write_upload c
      else call_on_data c datatype data_bytes

  -- A whole frame: file content while a file is being received, a command otherwise.
  pub dispatch : Conn → Bytes → M W Conn
  dispatch c data_bytes =
      if c.bin_recv_flag
      then dispatch_command c (pos 23) data_bytes
      else if ltb (length data_bytes) 4
      then pure c
      else dispatch_command c (unpack_i data_bytes) (drop 4 data_bytes)

  -- The bytes of a frame so far: wait for more, dispatch the frame, or drop too many bytes.
  pub complete : Conn → M W Conn
  complete c =
      let idle = record c { datatotal = []; data_len = pos 0 } in
      if ltb_ℕℤ (length c.datatotal) c.data_len
      then pure c
      else if eq_ℕ c.data_len (length c.datatotal)
      then dispatch idle c.datatotal
      else pure idle

  -- One round of the loop, on what `recv` returned.
  pub handle_chunk : Conn → Bytes → M W Conn
  handle_chunk c [] = λ w. leave w
  handle_chunk c (b ∷ bs) =
      let chunk = b ∷ bs in
      if eq_ℕ c.data_len 0
      then (if ltb (length chunk) 4
          then (λ w. leave w)
          else complete
              (record c { data_len = unpack_i chunk; datatotal = c.datatotal ++ drop 4 chunk }))
      else complete (record c { datatotal = c.datatotal ++ chunk })

  -- The loop, over all that `recv` returns. When the list ends the connection waits for more.
  pub handle : List Bytes → Conn → M W Conn
  handle [] c = pure c
  handle (chunk ∷ chunks) c = handle_chunk c chunk >>= handle chunks
