-- ===== src/Protocol/Commands.antt =====
-- socket_server/protocol.py, lines 63 to 133: a frame that carries a command of `on_data`.
use socket_server.Prelude.{
  ℕ, ◌<◌, ◌≡◌, refl, ap, ◌∙◌, false, List, ◌∷◌, ◌++◌, arith, ltb, ◌==◌, length, drop,
}
use socket_server.Prelude.Bytes.{Bytes, pack_le32, le32-pack_le32}
use socket_server.Prelude.Int.{pos, to_signed, to_signed_pos}
use socket_server.Protocol.{
  Conn, done, and_then, Env, unpack_i, respond, call_on_data, dispatch_command, dispatch, handle,
}
use socket_server.Protocol.Frames.{idle, IsCut, handle-frame}

-- A command that the handler does not serve itself.
pub record IsForwarded (t : ℕ) : Type 0 where
  pub small : t < 2147483648
  pub not_name : (t == 21) ≡ false
  pub not_length : (t == 22) ≡ false
  pub not_content : (t == 23) ≡ false
  pub not_write : (t == 24) ≡ false

module _ {W : Type 0} (env : Env W) where
  dispatch-forwarded :
      (c : Conn) (t : ℕ) (json : Bytes) (w : W)
      → c.bin_recv_flag ≡ false
      → IsForwarded t
      → dispatch env c (pack_le32 t ++ json) w ≡ call_on_data env c (pos t) json w
  unfolding dispatch dispatch_command
  dispatch-forwarded c t json w off f =
      let type_read : unpack_i (pack_le32 t ++ json) ≡ pos t =
        ap to_signed (le32-pack_le32 t json (omega (arith, f.small))) ∙ to_signed_pos t f.small in
      let long : ltb (length (pack_le32 t ++ json)) 4 ≡ false = ground arith in
      let rest : drop 4 (pack_le32 t ++ json) ≡ json = refl in
      rw (off, long, type_read, f.not_name, f.not_length, f.not_content, f.not_write)

  -- Between two frames, a frame with such a command, however the network cut it: `on_data` is called
  -- once, with the command and what follows it, and its answer is sent.
  pub handle-forwarded :
      (c : Conn) (t : ℕ) (json first : Bytes) (more : List Bytes) (w : W)
      → c.bin_recv_flag ≡ false
      → IsForwarded t
      → IsCut (pack_le32 t ++ json) first more
      → handle env (first ∷ more) (idle c) w
        ≡ and_then
            (Env.on_data env (pos t) json c.filepath w)
            (λ res_do v. and_then (respond env res_do v) (λ _ u. done (idle c) u))
  unfolding call_on_data
  handle-forwarded c t json first more w off f cut =
      handle-frame env c (pack_le32 t ++ json) first more w cut
      ∙ dispatch-forwarded (idle c) t json w off f
