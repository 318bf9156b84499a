-- ===== src/Capture/Process/Written.antt =====
-- socket_server/capture.py, lines 206 to 257 and 339 to 349: the records that the receive loop writes.
use socket_server.Prelude.{
  ℕ, ◌+◌, ◌/◌, ◌%◌, ◌≤◌, ◌<◌, ◌≡◌, refl, sym, ap, ◌∙◌, Bool, true, ◌||◌, Option, some, List, [],
  ◌∷◌, ◌++◌, append-nil, append_assoc, arith, ltb, lt→ltb, length, All, length-append,
}
use socket_server.Prelude.Bytes.{Bytes, pack_le32}
use socket_server.Prelude.Int.{ℤ, pos}
use socket_server.Prelude.{either_by}
use socket_server.Frame.{Cmsg, restore_vlan}
use socket_server.Frame.Tags.{length-restore_vlan}
use socket_server.Capture.Sort.{Packet, little, write_records}
use socket_server.Capture.Sort.Format.{Fits}
use socket_server.Capture.Sort.Built.{write_records-append}
use socket_server.Capture.Process.{
  TsMode, AfPacketCapture, decode_ts_ns, write_packet, take_frame, Received, frame, timed_out,
  failed, recv_turn, or_raised, recv_loop, drain,
}

-- A frame of `recvmsg(65535, …)` with a stamp from 1970 to 2106.
pub record IsStamped (m : TsMode) (bytes : Bytes) (ancdata : List Cmsg) (now : ℕ) : Type 0 where
  pub ts_ns : ℕ
  pub degraded : Bool
  pub decoded : decode_ts_ns m ancdata now ≡ some (pos ts_ns, degraded)
  pub early_enough : ts_ns < 4294967296000000000
  pub short : length bytes ≤ 65535

-- What the loop records: a frame with content.
abbrev pub IsRecorded : TsMode → Received → Type 0
IsRecorded m timed_out = ⊥
IsRecorded m (failed unavailable) = ⊥
IsRecorded m (frame [] ancdata now) = ⊥
IsRecorded m (frame (b ∷ bs) ancdata now) = IsStamped m (b ∷ bs) ancdata now

-- The same, or a time-out, which changes nothing.
abbrev pub IsCalm : TsMode → Received → Type 0
IsCalm m timed_out = Unit
IsCalm m (failed unavailable) = ⊥
IsCalm m (frame bytes ancdata now) = IsRecorded m (frame bytes ancdata now)

stamp_or_zero : Option (ℤ × Bool) → ℕ
stamp_or_zero (some (pos t, degraded)) = t
stamp_or_zero _ = 0

-- The packet that a frame stands for: its stamp in seconds and nanoseconds, its bytes with the tag.
packet_of : TsMode → Bytes → List Cmsg → ℕ → Packet
packet_of m bytes ancdata now = record {
  ts_sec = stamp_or_zero (decode_ts_ns m ancdata now) / 1000000000;
  ts_frac = stamp_or_zero (decode_ts_ns m ancdata now) % 1000000000;
  idx = 0;
  captured = restore_vlan bytes ancdata;
}

pub packets_of : TsMode → List Received → List Packet
packets_of m [] = []
packets_of m (frame bytes ancdata now ∷ rs) = packet_of m bytes ancdata now ∷ packets_of m rs
packets_of m (_ ∷ rs) = packets_of m rs

pub packets_of-append :
    (m : TsMode) (rs qs : List Received)
    → packets_of m (rs ++ qs) ≡ packets_of m rs ++ packets_of m qs
unfolding packets_of
packets_of-append m [] qs = refl
packets_of-append m (frame bytes ancdata now ∷ rs) qs =
    ap (λ ps. packet_of m bytes ancdata now ∷ ps) (packets_of-append m rs qs)
packets_of-append m (timed_out ∷ rs) qs = packets_of-append m rs qs
packets_of-append m (failed unavailable ∷ rs) qs = packets_of-append m rs qs

packet_of-Fits :
    (m : TsMode) (bytes : Bytes) (ancdata : List Cmsg) (now : ℕ)
    → IsStamped m bytes ancdata now
    → Fits (packet_of m bytes ancdata now)
unfolding packet_of stamp_or_zero
packet_of-Fits m bytes ancdata now s = record {
  sec = rw s.decoded (omega (arith, s.early_enough));
  frac = omega arith;
  size = omega (arith, s.short, length-restore_vlan bytes ancdata);
}

pub packets_of-Fits :
    (m : TsMode) (rs : List Received) → All (IsCalm m) rs → All Fits (packets_of m rs)
unfolding packets_of
packets_of-Fits m [] a = tt
packets_of-Fits m (frame [] ancdata now ∷ rs) a = absurd a.0
packets_of-Fits m (frame (b ∷ bs) ancdata now ∷ rs) a =
    (packet_of-Fits m (b ∷ bs) ancdata now a.0, packets_of-Fits m rs a.1)
packets_of-Fits m (timed_out ∷ rs) a = packets_of-Fits m rs a.1
packets_of-Fits m (failed unavailable ∷ rs) a = absurd a.0

-- From `c` to `c'` the packets `ps` are written, and nothing else changes but the warning.
pub record Writes (ps : List Packet) (c c' : AfPacketCapture) : Type 0 where
  pub written_lem : c'.written ≡ c.written ++ write_records little ps
  pub counted : c'.pkt_count ≡ c.pkt_count + length ps
  pub same_mode : c'.ts_mode ≡ c.ts_mode
  same_drops : c'.dropped ≡ c.dropped
  pub same_exc : c'.exc ≡ c.exc
  pub same_running : c'.running ≡ c.running

Writes-none : (c : AfPacketCapture) → Writes [] c c
unfolding write_records
Writes-none c = record {
  written_lem = sym (append-nil c.written);
  counted = omega arith;
  same_mode = refl;
  same_drops = refl;
  same_exc = refl;
  same_running = refl;
}

pub Writes-append :
    (ps qs : List Packet) (c d e : AfPacketCapture)
    → Writes ps c d
    → Writes qs d e
    → Writes (ps ++ qs) c e
Writes-append ps qs c d e v w = record {
  written_lem =
      w.written_lem
      ∙ ap (λ (b : Bytes). b ++ write_records little qs) v.written_lem
      ∙ append_assoc c.written (write_records little ps) (write_records little qs)
      ∙ ap (λ (b : Bytes). c.written ++ b) (sym (write_records-append little ps qs));
  counted = omega (arith, v.counted, w.counted, length-append ps qs);
  same_mode = w.same_mode ∙ v.same_mode;
  same_drops = w.same_drops ∙ v.same_drops;
  same_exc = w.same_exc ∙ v.same_exc;
  same_running = w.same_running ∙ v.same_running;
}

record_of : ℕ → Bytes → Bytes
record_of t body =
    pack_le32 (t / 1000000000)
    ++ (pack_le32 (t % 1000000000)
        ++ (pack_le32 (length body) ++ (pack_le32 (length body) ++ body)))

write_one :
    (body : Bytes) (t : ℕ) (c : AfPacketCapture)
    → t < 4294967296000000000
    → length body ≤ 65539
    → write_packet body (pos t) c
      ≡ some (record c { written = c.written ++ record_of t body; pkt_count = c.pkt_count + 1 })
unfolding write_packet record_of
write_one body t c early short =
    let sec : ltb (t / 1000000000) 4294967296 ≡ true = lt→ltb _ _ (omega arith) in
    let size : ltb (length body) 4294967296 ≡ true = lt→ltb _ _ (omega arith) in rw (sec, size)

record_of-packet :
    (m : TsMode) (bytes : Bytes) (ancdata : List Cmsg) (now : ℕ) (t : ℕ) (degraded : Bool)
    → decode_ts_ns m ancdata now ≡ some (pos t, degraded)
    → record_of t (restore_vlan bytes ancdata)
      ≡ write_records little (packet_of m bytes ancdata now ∷ [])
unfolding record_of packet_of stamp_or_zero write_records
record_of-packet m bytes ancdata now t degraded decoded =
    rw (decoded, append-nil (restore_vlan bytes ancdata))

-- A frame with a stamp gives its record.
take_one :
    (m : TsMode) (bytes : Bytes) (ancdata : List Cmsg) (now : ℕ) (c : AfPacketCapture)
    → c.ts_mode ≡ m
    → IsStamped m bytes ancdata now
    → (c' : AfPacketCapture) × (take_frame bytes ancdata now c ≡ some c')
      × Writes (packet_of m bytes ancdata now ∷ []) c c'
unfolding take_frame
take_one m bytes ancdata now c e s =
    let body = restore_vlan bytes ancdata in
    let short : length body ≤ 65539 = omega (arith, s.short, length-restore_vlan bytes ancdata) in
    let marked = record c { hw_degraded_warned = c.hw_degraded_warned || s.degraded } in
    let stamp : decode_ts_ns c.ts_mode ancdata now ≡ some (pos s.ts_ns, s.degraded) =
      ap (λ k. decode_ts_ns k ancdata now) e ∙ s.decoded in
    (
      record marked { written = c.written ++ record_of s.ts_ns body; pkt_count = c.pkt_count + 1 },
      rw (stamp, take_frame) (write_one body s.ts_ns marked s.early_enough short),
      record {
        written_lem =
            ap (λ (b : Bytes). c.written ++ b)
              (record_of-packet m bytes ancdata now s.ts_ns s.degraded s.decoded);
        counted = refl;
        same_mode = refl;
        same_drops = refl;
        same_exc = refl;
        same_running = refl;
      },
    )

-- A turn of the loop on a frame that is recorded or a time-out.
pub recv_turn-Writes :
    (m : TsMode) (r : Received) (c : AfPacketCapture)
    → c.ts_mode ≡ m
    → IsCalm m r
    → Writes (packets_of m (r ∷ [])) c (recv_turn r c)
unfolding recv_turn packets_of or_raised
recv_turn-Writes m timed_out c e s = Writes-none c
recv_turn-Writes m (failed unavailable) c e s = absurd s
recv_turn-Writes m (frame [] ancdata now) c e s = absurd s
recv_turn-Writes m (frame (b ∷ bs) ancdata now) c e s =
    let (c', took, writes) = take_one m (b ∷ bs) ancdata now c e s in rw took writes

recv_loop_on :
    (r : Received) (rs : List Received) (c : AfPacketCapture)
    → c.running ≡ true
    → recv_loop rs (recv_turn r c) ≡ recv_loop (r ∷ rs) c
unfolding recv_loop
recv_loop_on r rs c on =
    either_by (λ d. recv_loop rs (recv_turn r c) ≡ d) c.running _ c (λ _. refl) (λ off. cc)

pub recv_loop-Writes :
    (m : TsMode) (rs : List Received) (c : AfPacketCapture)
    → c.ts_mode ≡ m
    → c.running ≡ true
    → All (IsCalm m) rs
    → Writes (packets_of m rs) c (recv_loop rs c)
unfolding recv_loop packets_of
recv_loop-Writes m [] c e on a = Writes-none c
recv_loop-Writes m (r ∷ rs) c e on a =
    let turn = recv_turn-Writes m r c e a.0 in
    let rest =
      recv_loop-Writes m rs (recv_turn r c) (turn.same_mode ∙ e) (turn.same_running ∙ on) a.1 in
    rw (packets_of-append m (r ∷ []) rs, ← recv_loop_on r rs c on)
      (Writes-append (packets_of m (r ∷ [])) (packets_of m rs) c (recv_turn r c) _ turn rest)

pub drain-Writes :
    (m : TsMode) (rs : List Received) (c : AfPacketCapture)
    → c.ts_mode ≡ m
    → All (IsRecorded m) rs
    → Writes (packets_of m rs) c (drain rs c)
unfolding drain packets_of
drain-Writes m [] c e a = Writes-none c
drain-Writes m (timed_out ∷ rs) c e a = absurd a.0
drain-Writes m (failed unavailable ∷ rs) c e a = absurd a.0
drain-Writes m (frame [] ancdata now ∷ rs) c e a = absurd a.0
drain-Writes m (frame (b ∷ bs) ancdata now ∷ rs) c e a =
    let (c', took, writes) = take_one m (b ∷ bs) ancdata now c e a.0 in
    let rest = drain-Writes m rs c' (writes.same_mode ∙ e) a.1 in
    rw (took, drain)
      (Writes-append (packet_of m (b ∷ bs) ancdata now ∷ []) (packets_of m rs) c c' _ writes rest)
