-- ===== src/Protocol/Frames.antt =====
-- socket_server/protocol.py, lines 35 to 62: frames, each its length in four bytes and then its payload, and
-- the chunks that they come in.
use socket_server.Prelude.{
  ℕ, ◌+◌, ◌≤◌, ◌<◌, ◌≡◌, refl, sym, ap, ◌∙◌, subst, inl, inr, false, List, [], ◌∷◌, ◌++◌,
  append-nil, append_assoc, arith, ltb, ltb→lt, Bool-cases, length, drop, All, concat,
  length-append,
}
use socket_server.Prelude.Bytes.{
  Bytes, le32, pack_le32, le32-pack_le32, le32-append, drop_four-append,
}
use socket_server.Prelude.Int.{pos, to_signed_pos}
use socket_server.Protocol.{
  Conn, Outcome, and_then-pure, and_then_assoc, and_then_cong, done, leave, raised, M, and_then,
  Env, unpack_i, receive_name, receive_length, receive_content, write_upload, call_on_data,
  dispatch_command, dispatch, complete, handle_chunk, handle,
}

-- The bytes that a client sends for one payload.
abbrev pub frame : Bytes → Bytes
frame payload = pack_le32 (length payload) ++ payload

-- Between two frames nothing is kept.
abbrev pub idle : Conn → Conn
idle c = record c { datatotal = []; data_len = pos 0 }

-- What `recv` returns before the end of the stream.
abbrev pub AreChunks : List Bytes → Type 0
AreChunks = All (λ chunk. 0 < length chunk)

-- A cut of one frame into chunks: none is empty, and the first holds the length whole.
pub record IsCut (payload : Bytes) (first : Bytes) (more : List Bytes) : Type 0 where
  pub joined : first ++ concat more ≡ frame payload
  pub header : 4 ≤ length first
  pub chunks : AreChunks more
  pub fits : length payload < 0x80000000

-- One payload with a cut of its frame, and what `recv` returns for many, one after the other.
pub record Sent : Type 0 where
  pub payload : Bytes
  pub first : Bytes
  pub more : List Bytes
  pub cut : IsCut payload first more

abbrev pub payloads : List Sent → List Bytes
payloads [] = []
payloads (s ∷ ss) = s.payload ∷ payloads ss

abbrev pub received : List Sent → List Bytes
received [] = []
received (s ∷ ss) = (s.first ∷ s.more) ++ received ss

-- Nothing more was received after a whole payload.
no_chunks : (chunks : List Bytes) → AreChunks chunks → length (concat chunks) ≡ 0 → chunks ≡ []
no_chunks [] h e = refl
no_chunks (ch ∷ chs) h e = absurd (omega (arith, length-append ch (concat chs), h.0))

-- A frame that is whole has no chunk left.
pub last_chunk :
    (got chunk : Bytes) (chunks : List Bytes) (payload : Bytes)
    → AreChunks chunks
    → got ++ (chunk ++ concat chunks) ≡ payload
    → length payload ≤ length (got ++ chunk)
    → (chunks ≡ []) × (got ++ chunk ≡ payload)
last_chunk got chunk chunks payload h e len =
    let total : length payload ≡ length (got ++ chunk) + length (concat chunks) =
      ap length (sym e)
      ∙ ap length (sym (append_assoc got chunk (concat chunks)))
      ∙ length-append (got ++ chunk) (concat chunks) in
    let none_left : chunks ≡ [] = no_chunks chunks h (omega arith) in
    (
      none_left,
      sym (append-nil (got ++ chunk))
          ∙ append_assoc got chunk []
          ∙ subst (λ cs. got ++ (chunk ++ concat cs) ≡ payload) none_left e,
    )

module _ {W : Type 0} (env : Env W) where
  complete_whole :
      (c : Conn) (n : ℕ) (got : Bytes) (w : W)
      → length got ≡ n
      → complete env (record c { datatotal = got; data_len = pos n }) w
        ≡ dispatch env (idle c) got w
  unfolding complete
  complete_whole c n got w e = ground arith

  complete_part :
      (c : Conn) (n : ℕ) (got : Bytes) (w : W)
      → length got < n
      → complete env (record c { datatotal = got; data_len = pos n }) w
        ≡ done (record c { datatotal = got; data_len = pos n }) w
  unfolding complete
  complete_part c n got w e = ground arith

  -- In the middle of a frame every chunk is added.
  handle_chunk_more :
      (c : Conn) (n : ℕ) (got chunk : Bytes) (w : W)
      → 0 < length chunk
      → 0 < n
      → handle_chunk env (record c { datatotal = got; data_len = pos n }) chunk w
        ≡ complete env (record c { datatotal = got ++ chunk; data_len = pos n }) w
  unfolding handle_chunk
  handle_chunk_more c n got [] w h k = absurd (omega arith)
  handle_chunk_more c n got (b ∷ bs) w h k = ground arith

  handle_step :
      (c : Conn) (n : ℕ) (got chunk : Bytes) (chunks : List Bytes) (w : W)
      → 0 < length chunk
      → 0 < n
      → handle env (chunk ∷ chunks) (record c { datatotal = got; data_len = pos n }) w
        ≡ and_then
            (complete env (record c { datatotal = got ++ chunk; data_len = pos n }) w)
            (handle env chunks)
  unfolding handle
  handle_step c n got chunk chunks w h k =
      ap (λ r. and_then r (handle env chunks)) (handle_chunk_more c n got chunk w h k)

  complete_last :
      (c : Conn) (n : ℕ) (got : Bytes) (chunks : List Bytes) (payload : Bytes) (w : W)
      → AreChunks chunks
      → got ++ concat chunks ≡ payload
      → length payload ≡ n
      → ltb (length got) n ≡ false
      → and_then
          (complete env (record c { datatotal = got; data_len = pos n }) w)
          (handle env chunks)
        ≡ dispatch env (idle c) payload w
  unfolding handle
  complete_last c n got chunks payload w h e len whole =
      let (none_left, all_got) = last_chunk [] got chunks payload h e (ground arith) in
      rw (none_left, all_got, complete_whole c n payload w len)
        (and_then-pure (dispatch env (idle c) payload w))

  -- The rest of a frame is dispatched once, when it is whole.
  gather :
      (chunks : List Bytes) (c : Conn) (n : ℕ) (got payload : Bytes) (w : W)
      → AreChunks chunks
      → got ++ concat chunks ≡ payload
      → length payload ≡ n
      → length got < n
      → handle env chunks (record c { datatotal = got; data_len = pos n }) w
        ≡ dispatch env (idle c) payload w
  unfolding handle
  gather [] c n got payload w h e len lt = absurd (omega (arith, ap length e, length-append got []))
  gather (ch ∷ chs) c n got payload w h e len lt = elim (Bool-cases (ltb (length (got ++ ch)) n)) [
    | inl part ↦
        handle_step c n got ch chs w h.0 (omega arith)
        ∙ rw (complete_part c n (got ++ ch) w (ltb→lt _ _ part)) (
            gather chs c n (got ++ ch) payload w h.1 (append_assoc got ch (concat chs) ∙ e) len
              (ltb→lt _ _ part))
    | inr whole ↦
        handle_step c n got ch chs w h.0 (omega arith)
        ∙ complete_last c n (got ++ ch) chs payload w h.1 (append_assoc got ch (concat chs) ∙ e) len
            whole
  ]

  first_chunk :
      (c : Conn) (payload first : Bytes) (more : List Bytes) (w : W)
      → IsCut payload first more
      → handle_chunk env (idle c) first w
        ≡ complete env (record c { datatotal = drop 4 first; data_len = pos (length payload) }) w
  unfolding handle_chunk
  first_chunk c payload [] more w cut = absurd (omega arith)
  first_chunk c payload (b ∷ bs) more w cut =
      let n = length payload in
      let same : le32 (b ∷ bs) ≡ n =
        sym (le32-append (b ∷ bs) (concat more) cut.header)
        ∙ ap (λ s. le32 s) cut.joined
        ∙ le32-pack_le32 n payload (omega arith) in
      let signed : unpack_i (b ∷ bs) ≡ pos n = rw same (to_signed_pos n cut.fits) in
      let long : ltb (length (b ∷ bs)) 4 ≡ false = ground arith in rw (long, signed)

  -- A frame of less than 2^31 bytes is dispatched exactly once and whole, however the network cut
  -- it into chunks, if the first chunk holds the four bytes of the length: between two frames,
  -- handling the chunks of a frame is dispatching its payload.
  pub handle-frame :
      (c : Conn) (payload first : Bytes) (more : List Bytes) (w : W)
      → IsCut payload first more
      → handle env (first ∷ more) (idle c) w ≡ dispatch env (idle c) payload w
  unfolding handle
  handle-frame c payload first more w cut =
      let n = length payload in
      let got = drop 4 first in
      let rest : got ++ concat more ≡ payload =
        sym (drop_four-append first (concat more) cut.header) ∙ ap (drop 4) cut.joined in
      rw (first_chunk c payload first more w cut) (elim (Bool-cases (ltb (length got) n)) [
        | inl part ↦
            rw (complete_part c n got w (ltb→lt _ _ part))
              (gather more c n got payload w cut.chunks rest refl (ltb→lt _ _ part))
        | inr whole ↦ complete_last c n got more payload w cut.chunks rest refl whole
      ])

  -- The loop has a conn between two frames only in the idle state.
  abbrev StaysIdle : Outcome W Conn → Type 0
  StaysIdle (done c w) = idle c ≡ c
  StaysIdle (leave w) = Unit
  StaysIdle (raised w) = Unit

  dispatch-StaysIdle :
      (c : Conn) (payload : Bytes) (w : W) → StaysIdle (dispatch env (idle c) payload w)
  unfolding dispatch dispatch_command receive_name receive_length receive_content write_upload
      call_on_data
  dispatch-StaysIdle c payload w = ground arith

  handle-append :
      (xs ys : List Bytes) (c : Conn) (w : W)
      → handle env (xs ++ ys) c w ≡ and_then (handle env xs c w) (handle env ys)
  unfolding handle
  handle-append [] ys c w = refl
  handle-append (x ∷ xs) ys c w =
      and_then_cong (handle_chunk env c x w) (handle env (xs ++ ys)) _ (handle-append xs ys)
      ∙ sym (and_then_assoc (handle_chunk env c x w) (handle env xs) (handle env ys))

  -- Payload by payload.
  abbrev pub dispatch_all : List Bytes → Conn → M W Conn
  dispatch_all [] c w = done c w
  dispatch_all (p ∷ ps) c w = and_then (dispatch env c p w) (dispatch_all ps)

  StaysIdle-and_then :
      (r : Outcome W Conn) (f g : Conn → M W Conn)
      → StaysIdle r
      → ((c : Conn) (w : W) → f (idle c) w ≡ g (idle c) w)
      → and_then r f ≡ and_then r g
  StaysIdle-and_then (done c w) f g e h = subst (λ k. f k w ≡ g k w) e (h c w)
  StaysIdle-and_then (leave w) f g e h = refl
  StaysIdle-and_then (raised w) f g e h = refl

  -- A whole conversation, from between two frames: the loop on all chunks of many frames, each of
  -- less than 2^31 bytes and with its length whole in its first chunk, dispatches the payloads in
  -- their order, until one of them ends the connection.
  pub handle-received :
      (sent : List Sent) (c : Conn) (w : W)
      → handle env (received sent) (idle c) w ≡ dispatch_all (payloads sent) (idle c) w
  unfolding handle
  handle-received [] c w = refl
  handle-received (s ∷ ss) c w =
      handle-append (s.first ∷ s.more) (received ss) (idle c) w
      ∙ ap (λ r. and_then r (handle env (received ss)))
          (handle-frame c s.payload s.first s.more w s.cut)
      ∙ StaysIdle-and_then (dispatch env (idle c) s.payload w) (handle env (received ss))
          (dispatch_all (payloads ss)) (dispatch-StaysIdle c s.payload w) (handle-received ss)
