-- ===== src/Handlers/Answers.antt =====
-- socket_server/handlers.py, `do`: the answers that carry their length, and those of bad requests.
use socket_server.Prelude.{
  either, ℕ, ◌≤◌, ◌≡◌, refl, ap, ◌∙◌, subst, ◌⊎◌, inl, inr, false, not, ◌&&◌, Option, none, some,
  List, ◌∷◌, ◌++◌, arith, ltb, ltb→lt, Bool-cases, length, take, drop,
}
use socket_server.Prelude.Bytes.{Bytes, Text, codes, pack_le32, le32-pack_le32}
use socket_server.Prelude.Int.{ℤ, pos, to_signed, eq_ℕ, to_signed_pos}
use socket_server.NetUtils.{Completed}
use socket_server.NetUtils.Tables.{has_part}
use socket_server.Protocol.{Outcome, done, leave, raised, M, and_then, or_throw, unpack_i}
use socket_server.Protocol.{Conn, Env, respond, handle}
use socket_server.Protocol.Frames.{idle, IsCut}
use socket_server.Protocol.Commands.{IsForwarded, handle-forwarded}
use socket_server.Listen.{Ports, Listening, SocketServerListen}
use socket_server.Handlers.{
  Services, Operation, exec_cmd, python_cmd, extract_flows, boce, pack_size, with_length, beside,
  answer_zipped, answer_sized, boce_refused, boce_again, boce_install, boce_probed, boce_args,
  start_boce, do_service, do_local, do_known, do_command,
}

-- A client that reads four bytes knows the length of the rest.
abbrev IsSized : Bytes → Type 0
IsSized b = (4 ≤ length b) × (unpack_i b ≡ pos (length (drop 4 b)))

-- The answer of a call, if there is one, is sized; there is one unless an exception was raised.
abbrev pub AnswersSized : {W : Type 0} → Outcome W (Option Bytes) → Type 0
AnswersSized (done (some b) w) = IsSized b
AnswersSized (done none w) = ⊥
AnswersSized (leave w) = Unit
AnswersSized (raised w) = Unit

with_length-IsSized : (body b : Bytes) → with_length body ≡ some b → IsSized b
unfolding with_length pack_size
with_length-IsSized body b h = elim (Bool-cases (ltb (length body) 2147483648)) [
  | inr long ↦ absurd (ground (arith, h, long))
  | inl fits ↦
      let same : pack_le32 (length body) ++ body ≡ b = ground (arith, h, fits) in
      let small = ltb→lt _ _ fits in
      subst IsSized same (
        omega arith,
        ap to_signed (le32-pack_le32 (length body) body (omega arith))
            ∙ to_signed_pos (length body) small,
      )
]

-- One of the commands 1, 16, 131 and 200.
abbrev IsSizedCommand : ℕ → Type 0
IsSizedCommand t = (t ≡ 1) ⊎ ((t ≡ 16) ⊎ ((t ≡ 131) ⊎ (t ≡ 200)))

module _ {W : Type 0} where
  and_then-Sized :
      {A : Type 0} (r : Outcome W A) (f : A → W → Outcome W (Option Bytes))
      → ((a : A) (w : W) → AnswersSized (f a w))
      → AnswersSized (and_then r f)
  and_then-Sized (done a w) f h = h a w
  and_then-Sized (leave w) f h = tt
  and_then-Sized (raised w) f h = tt

  or_throw-Sized :
      {A : Type 0} (o : Option A) (f : A → W → Outcome W (Option Bytes)) (w : W)
      → ((a : A) → o ≡ some a → AnswersSized (f a w))
      → AnswersSized (and_then (or_throw o w) f)
  unfolding or_throw
  or_throw-Sized none f w h = tt
  or_throw-Sized (some a) f w h = h a refl

  framed-Sized :
      (body : Bytes) (w : W)
      → AnswersSized (and_then (or_throw (with_length body) w) (λ answer v. done (some answer) v))
  framed-Sized body w =
      or_throw-Sized (with_length body) _ w (λ answer e. with_length-IsSized body answer e)

module _ {W J : Type 0} (sv : Services W J) where
  answer_zipped-Sized :
      (op : Operation) (json : Bytes) (w : W) → AnswersSized (answer_zipped sv op json w)
  unfolding answer_zipped
  answer_zipped-Sized op json w =
      or_throw-Sized (Services.loads sv json) _ w
        λ args e. and_then-Sized (Services.call sv op args w) _ λ response v. framed-Sized _ v

  answer_sized-Sized :
      (op : Operation) (args : J) (w : W) → AnswersSized (answer_sized sv op args w)
  unfolding answer_sized
  answer_sized-Sized op args w =
      and_then-Sized (Services.call sv op args w) _ λ response v. framed-Sized _ v

  boce_refused-Sized : (reason : Text) (w : W) → AnswersSized (boce_refused sv reason w)
  unfolding boce_refused
  boce_refused-Sized reason w = framed-Sized _ w

  boce_again-Sized : (args : J) (w : W) → AnswersSized (boce_again sv args w)
  unfolding boce_again
  boce_again-Sized args w =
      and_then-Sized (Services.probe sv (Services.chromium_path sv args) w) _ λ recheck v.
        either (λ (m : M W (Option Bytes)). AnswersSized (m v)) (eq_ℕ recheck.returncode 0) _ _
          (answer_sized-Sized boce args v) (boce_refused-Sized (take 200 recheck.stderr) v)

  boce_install-Sized :
      (args : J) (o : Option (M W Completed)) (w : W) → AnswersSized (boce_install sv args o w)
  unfolding boce_install
  boce_install-Sized args none w = answer_sized-Sized boce args w
  boce_install-Sized args (some install) w =
      and_then-Sized (install w) _ λ installed v. boce_again-Sized args v

  boce_probed-Sized : (args : J) (w : W) → AnswersSized (boce_probed sv args w)
  unfolding boce_probed
  boce_probed-Sized args w =
      and_then-Sized (Services.probe sv (Services.chromium_path sv args) w) _ λ test v.
        either (λ (m : M W (Option Bytes)). AnswersSized (m v))
          (not (eq_ℕ test.returncode 0)
            && has_part (codes "cannot open shared object file") test.stderr)
          _ _ (boce_install-Sized args (Services.install_libraries sv v) v)
          (answer_sized-Sized boce args v)

  boce_args-Sized : (args : J) (w : W) → AnswersSized (boce_args sv args w)
  unfolding boce_args
  boce_args-Sized args w =
      either AnswersSized (Services.chromium_runs sv (Services.chromium_path sv args) w) _ _
        (boce_probed-Sized args w)
        (and_then-Sized (Services.ensure_chromium sv (Services.chromium_path sv args) w) _
          λ there v.
            either (λ (m : M W (Option Bytes)). AnswersSized (m v)) there _ _
              (boce_probed-Sized args v) (boce_refused-Sized (codes "chromium") v))

  start_boce-Sized : (json : Bytes) (w : W) → AnswersSized (start_boce sv json w)
  unfolding start_boce
  start_boce-Sized json w =
      or_throw-Sized (Services.loads sv json) _ w λ args e. boce_args-Sized args w

  flows-Sized :
      (json : Bytes) (w : W)
      → AnswersSized
          (and_then (or_throw (Services.loads sv json) w) (answer_sized sv extract_flows))
  flows-Sized json w =
      or_throw-Sized (Services.loads sv json) _ w λ args e. answer_sized-Sized extract_flows args w

  beside-Sized :
      (ss : Option SocketServerListen) (o : Outcome W (Option Bytes))
      → AnswersSized o
      → AnswersSized (beside ss o)
  unfolding beside
  beside-Sized ss (done (some b) w) h = h
  beside-Sized ss (done none w) h = h
  beside-Sized ss (leave w) h = tt
  beside-Sized ss (raised w) h = tt

  module _ (os : Ports W) (json : Bytes) (filepath : Option Text) (s : Listening W) where
    sized_commands :
        (t : ℕ) → IsSizedCommand t → AnswersSized (do_command sv os (pos t) json filepath s)
    unfolding do_command do_known do_service do_local
    sized_commands t (inl e) =
        rw e (beside-Sized s.ss _ (answer_zipped-Sized exec_cmd json s.world))
    sized_commands t (inr (inl e)) =
        rw e (beside-Sized s.ss _ (answer_zipped-Sized python_cmd json s.world))
    sized_commands t (inr (inr (inl e))) =
        rw e (beside-Sized s.ss _ (start_boce-Sized json s.world))
    sized_commands t (inr (inr (inr e))) = rw e (beside-Sized s.ss _ (flows-Sized json s.world))

IsForwarded-sized : (t : ℕ) → IsSizedCommand t → IsForwarded t
IsForwarded-sized t h = record {
  small = ground (arith, h);
  not_name = ground (arith, h);
  not_length = ground (arith, h);
  not_content = ground (arith, h);
  not_write = ground (arith, h);
}

-- On a connection between two frames whose `on_data` is `do`: a frame with one of the commands 1, 16, 131
-- and 200, however the network cut it, makes one call of `do` with the command and its JSON text, and
-- its answer is sent; and whatever the services answer, `do` raises or meets a reset (then the connection is closed), or
-- its answer begins with four bytes that are the length of the rest.
pub handle-sized :
    {W J : Type 0} (sv : Services W J) (os : Ports W) (env : Env (Listening W)) (c : Conn) (t : ℕ)
    (json first : Bytes) (more : List Bytes) (s : Listening W)
    → Env.on_data env ≡ do_command sv os
    → c.bin_recv_flag ≡ false
    → IsSizedCommand t
    → IsCut (pack_le32 t ++ json) first more
    → (handle env (first ∷ more) (idle c) s
        ≡ and_then
            (do_command sv os (pos t) json c.filepath s)
            (λ res_do v. and_then (respond env res_do v) (λ _ u. done (idle c) u)))
      × AnswersSized (do_command sv os (pos t) json c.filepath s)
handle-sized sv os env c t json first more s same off h cut = (
  handle-forwarded env c t json first more s off (IsForwarded-sized t h) cut
      ∙ ap
          (λ (f : ℤ → Bytes → Option Text → M (Listening _) (Option Bytes)).
            and_then (f (pos t) json c.filepath s)
              (λ res_do v. and_then (respond env res_do v) (λ _ u. done (idle c) u)))
          same,
  sized_commands sv os json c.filepath s t h,
)
