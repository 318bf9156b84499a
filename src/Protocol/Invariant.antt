-- ===== src/Protocol/Invariant.antt =====
-- socket_server/protocol.py, lines 28 to 133: what the loop holds between two `recv`s.
use socket_server.Prelude.{◌<◌, ◌≡◌, refl, ◌⊎◌, inl, true, List, [], ◌∷◌, ◌++◌, arith, length, drop}
use socket_server.Prelude.Bytes.{Bytes}
use socket_server.Prelude.Int.{ℤ, pos, ltb_ℕℤ}
use socket_server.Protocol.{
  Conn, Outcome, done, leave, raised, M, and_then, Env, unpack_i, receive_name, receive_length,
  receive_content, write_upload, call_on_data, dispatch_command, dispatch, complete, handle_chunk,
  handle,
}

-- While a file is received, no more bytes are held than were announced; between two frames nothing
-- is held, and inside one less than its length.
pub record IsValid (c : Conn) : Type 0 where
  pub frame :
      ((c.data_len ≡ pos 0) × (c.datatotal ≡ [])) ⊎ (ltb_ℕℤ (length c.datatotal) c.data_len ≡ true)
  pub file : c.bin_recv_flag ≡ true → (length c.content < c.file_length) ⊎ (length c.content ≡ 0)

module _ {W : Type 0} where
  -- What holds of the connection if the loop goes on.
  abbrev pub IfDone : (Conn → Type 0) → Outcome W Conn → Type 0
  IfDone P (done c w) = P c
  IfDone P (leave w) = Unit
  IfDone P (raised w) = Unit

module _ {W : Type 0} (env : Env W) where
  receive_name-IsValid :
      (c : Conn) (p : Bytes) (w : W) → IsValid c → IfDone IsValid (receive_name env c p w)
  unfolding receive_name
  receive_name-IsValid c p w v = ground arith

  receive_length-IsValid :
      (c : Conn) (p : Bytes) (w : W) → IsValid c → IfDone IsValid (receive_length env c p w)
  unfolding receive_length
  receive_length-IsValid c p w v = ground arith

  receive_content-IsValid :
      (c : Conn) (p : Bytes) (w : W) → IsValid c → IfDone IsValid (receive_content env c p w)
  unfolding receive_content
  receive_content-IsValid c p w v = ground arith

  write_upload-IsValid : (c : Conn) (w : W) → IsValid c → IfDone IsValid (write_upload env c w)
  unfolding write_upload
  write_upload-IsValid c w v = ground arith

  call_on_data-IsValid :
      (c : Conn) (k : ℤ) (p : Bytes) (w : W) → IsValid c → IfDone IsValid (call_on_data env c k p w)
  unfolding call_on_data
  call_on_data-IsValid c k p w v = ground arith

  dispatch_command-IsValid :
      (c : Conn) (k : ℤ) (p : Bytes) (w : W)
      → IsValid c
      → IfDone IsValid (dispatch_command env c k p w)
  unfolding dispatch_command
  dispatch_command-IsValid c k p w v = ground (
    arith,
    receive_name-IsValid c p w v,
    receive_length-IsValid c p w v,
    receive_content-IsValid c p w v,
    write_upload-IsValid c w v,
    call_on_data-IsValid c k p w v,
  )

  dispatch-IsValid :
      (c : Conn) (p : Bytes) (w : W) → IsValid c → IfDone IsValid (dispatch env c p w)
  unfolding dispatch
  dispatch-IsValid c p w v = ground (
    arith,
    dispatch_command-IsValid c (pos 23) p w v,
    dispatch_command-IsValid c (unpack_i p) (drop 4 p) w v,
  )

  abbrev FileIsValid : Conn → Type 0
  FileIsValid c =
      c.bin_recv_flag ≡ true → (length c.content < c.file_length) ⊎ (length c.content ≡ 0)

  complete-IsValid : (c : Conn) (w : W) → FileIsValid c → IfDone IsValid (complete env c w)
  unfolding complete
  complete-IsValid c w v = ground (
    arith,
    dispatch-IsValid (record c { datatotal = []; data_len = pos 0 }) c.datatotal w
        (record { frame = inl (refl, refl); file = v }),
  )

  handle_chunk-IsValid :
      (c : Conn) (chunk : Bytes) (w : W) → IsValid c → IfDone IsValid (handle_chunk env c chunk w)
  unfolding handle_chunk
  handle_chunk-IsValid c [] w v = tt
  handle_chunk-IsValid c (b ∷ bs) w v = ground (
    arith,
    complete-IsValid
        (record c { data_len = unpack_i (b ∷ bs); datatotal = c.datatotal ++ drop 4 (b ∷ bs) }) w
        v.file,
    complete-IsValid (record c { datatotal = c.datatotal ++ (b ∷ bs) }) w v.file,
  )

  and_then-IsValid :
      (r : Outcome W Conn) (f : Conn → M W Conn)
      → IfDone IsValid r
      → ((c : Conn) (w : W) → IsValid c → IfDone IsValid (f c w))
      → IfDone IsValid (and_then r f)
  and_then-IsValid (done c w) f v h = h c w v
  and_then-IsValid (leave w) f v h = tt
  and_then-IsValid (raised w) f v h = tt

  -- Whatever a client sends, cut in whatever way, to a connection that is valid, as a new one is:
  -- as long as the loop goes on, a frame in progress holds less than its announced length, and a
  -- file in progress less than its announced length or nothing.
  pub handle-IsValid :
      (chunks : List Bytes) (c : Conn) (w : W) → IsValid c → IfDone IsValid (handle env chunks c w)
  unfolding handle
  handle-IsValid [] c w v = v
  handle-IsValid (ch ∷ chs) c w v =
      and_then-IsValid (handle_chunk env c ch w) (handle env chs) (handle_chunk-IsValid c ch w v)
        (handle-IsValid chs)
