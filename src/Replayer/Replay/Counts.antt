-- ===== src/Replayer/Replay/Counts.antt =====
-- socket_server/replayer.py, lines 658 to 798: the counters of a replay.
use socket_server.Prelude.{
  ℕ, zero, suc, ◌+◌, ◌≤◌, ◌≡◌, refl, subst, inl, inr, Bool, true, false, not, ◌&&◌, Option, none,
  some, List, [], ◌∷◌, arith, ltb, if◌then◌else◌, Bool-cases, Option-cases, length, take, drop,
  length-drop,
}
use socket_server.Prelude.Bytes.{Bytes, Text, eqb, le32}
use mathlib.Core.Option
use socket_server.Replayer.Packet.{Inet, Ethernet, Ip, parse_ip, FiveTuple}
use socket_server.Replayer.Flow.{Direction, uplink, downlink}
use socket_server.Replayer.Build.{Addresses}
use socket_server.Replayer.Modify.{no_force, network_part, is_ip}
use socket_server.Replayer.Replay.{
  Io, Config, Replayer, directionless, Replayed, finished, failed, out_of_fuel, reset_stats, count,
  counted, send_packet, outgoing, or_skipped, replay_ip, replay_packet, replay_records, replay_file,
  setup_pcap_caching, cleanup_pcap_caching, add_file, replay_all, replay_files,
}

-- The bytes of both directions make the total, and every packet that was counted in a direction is one
-- of the total or of the `n` that this file gave so far.
pub record Agrees {W : Type 0} (n : ℕ) (r : Replayer W) : Type 0 where
  pub bytes : r.total_bytes ≡ r.uplink_bytes + r.downlink_bytes
  pub packets : r.uplink_packets + r.downlink_packets ≤ r.total_packets + n

module _ {W : Type 0} (io : Io W) (inet : Inet) (a : Addresses) (c : Config) where
  counted-Agrees :
      (n : ℕ) (direction : Direction) (size : ℕ) (r : Replayer W) (sent : Bool × W)
      → Agrees n r
      → Agrees (n + 1) (counted io inet a c direction size r sent)
  unfolding counted count
  counted-Agrees n uplink size r (true, w) h = record {
    bytes = omega (arith, h.bytes);
    packets = omega (arith, h.packets);
  }
  counted-Agrees n downlink size r (true, w) h = record {
    bytes = omega (arith, h.bytes);
    packets = omega (arith, h.packets);
  }
  counted-Agrees n direction size r (false, w) h = record {
    bytes = h.bytes;
    packets = omega (arith, h.packets);
  }

  abbrev SkippedAgrees : ℕ → ℕ × Replayer W → Type 0
  SkippedAgrees n (k, r) = Agrees (n + k) r

  send_packet-Agrees :
      (n : ℕ) (pkt : Bytes) (direction : Direction) (key : Option FiveTuple) (size : ℕ) (ts : ℕ × ℕ)
      (r : Replayer W)
      → Agrees n r
      → SkippedAgrees n
          (or_skipped io inet a c (send_packet io inet a c pkt direction key size ts r) r)
  unfolding send_packet or_skipped
  send_packet-Agrees n pkt direction key size ts r h =
      elim (Option-cases (outgoing io inet a c pkt direction key r)) [
        | inl raised ↦ rw (raised, or_skipped) (subst (λ k. Agrees k r) (omega arith) h)
        | inr (out, known) ↦ rw (known, or_skipped) (counted-Agrees n direction size r _ h)
      ]

  nothing_more : (n : ℕ) (r : Replayer W) → Agrees n r → SkippedAgrees n (0, r)
  nothing_more n r h = record { bytes = h.bytes; packets = omega (arith, h.packets) }

  either-Agrees :
      (n : ℕ) (b : Bool) (p q : ℕ × Replayer W)
      → SkippedAgrees n p
      → SkippedAgrees n q
      → SkippedAgrees n (if b then p else q)
  either-Agrees n true p q h k = h
  either-Agrees n false p q h k = k

  replay_ip-Agrees :
      (n : ℕ) (eth : Ethernet) (ip : Ip) (pkt : Bytes) (size : ℕ) (ts : ℕ × ℕ) (r : Replayer W)
      → Agrees n r
      → SkippedAgrees n (replay_ip io inet a c eth ip pkt size ts r)
  unfolding replay_ip
  replay_ip-Agrees n eth ip pkt size ts r h =
      elim (Bool-cases
        (directionless io inet a c && (no_force c.force && not c.force_build_flow))) [
          | inl plain ↦ rw plain (send_packet-Agrees n pkt uplink none size ts r h)
          | inr flow ↦ rw flow (
              send_packet-Agrees n pkt _ _ size ts _
                (record { bytes = h.bytes; packets = h.packets }))
        ]

  replay_packet-Agrees :
      (n : ℕ) (pkt : Bytes) (size : ℕ) (ts : ℕ × ℕ) (r : Replayer W)
      → Agrees n r
      → SkippedAgrees n (replay_packet io inet a c pkt size ts r)
  unfolding replay_packet
  replay_packet-Agrees n pkt size ts r h = elim (Option-cases (network_part pkt)) [
    | inl raised ↦ rw (raised, replay_packet) (nothing_more n r h)
    | inr (part, known) ↦
        rw (known, replay_packet)
          (either-Agrees n (is_ip part.1.0) _ _
            (elim (Option-cases (parse_ip inet part.1.1)) [
              | inl unread ↦ rw (unread, replay_packet) (nothing_more n r h)
              | inr (ip, read) ↦
                  rw (read, replay_packet)
                    (either-Agrees n (eqb ip.ip_src []) _ _ (nothing_more n r h)
                      (replay_ip-Agrees n part.0 ip pkt size ts r h))
            ])
            (nothing_more n r h))
  ]

  -- What a file leaves if no exception ended it.
  abbrev pub FileAgrees : Replayed W → Type 0
  FileAgrees (finished n r) = Agrees n r
  FileAgrees (failed r) = Unit
  FileAgrees out_of_fuel = ⊥

  replay_records-Agrees :
      (fuel : ℕ) (file : Bytes) (n : ℕ) (r : Replayer W)
      → length file ≤ fuel
      → Agrees n r
      → FileAgrees (replay_records io inet a c fuel file n r)
  unfolding replay_records
  replay_records-Agrees zero [] n r fits h = h
  replay_records-Agrees (suc fuel) [] n r fits h = h
  replay_records-Agrees zero (b ∷ bs) n r fits h = absurd (omega arith)
  replay_records-Agrees (suc fuel) (b ∷ bs) n r fits h =
      let body = drop 16 (b ∷ bs) in
      let incl_len = le32 (drop 8 (b ∷ bs)) in
      elim (Bool-cases (ltb (length (b ∷ bs)) 16)) [
        | inl short ↦ rw short tt
        | inr whole ↦ rw whole (
            replay_records-Agrees fuel (drop incl_len body) _ _
              (omega (arith, length-drop incl_len body, length-drop 15 bs))
              (replay_packet-Agrees n (take incl_len body) _ _ r h))
      ]

  -- `replay_file` ends: its loop has fuel enough. From a state in which the counters agree, if no
  -- exception ended it, they agree afterwards, the packets of this file counted in.
  pub replay_file-Agrees :
      (path : Text) (r : Replayer W) → Agrees 0 r → FileAgrees (replay_file io inet a c path r)
  unfolding replay_file
  replay_file-Agrees path r h = elim (Option-cases (io.read_file path r.world)) [
    | inl missing ↦ rw (missing, replay_file) tt
    | inr (file, known) ↦
        rw (known, replay_file)
          (elim (Bool-cases (ltb (length file) 24)) [
            | inl short ↦ rw short tt
            | inr whole ↦
                rw whole
                  (replay_records-Agrees (length (drop 24 file)) (drop 24 file) 0 r (omega arith) h)
          ])
  ]

  -- What the call leaves if no file ended it by an exception.
  abbrev pub AllAgree : Option (Replayer W) → Type 0
  AllAgree none = Unit
  AllAgree (some r) = Agrees 0 r

  add_file-Agrees : (one : Replayed W) → FileAgrees one → AllAgree (add_file io inet a c one)
  unfolding add_file
  add_file-Agrees (finished n r) h = record { bytes = h.bytes; packets = omega (arith, h.packets) }
  add_file-Agrees (failed r) h = tt
  add_file-Agrees out_of_fuel h = tt

  replay_all-Agrees :
      (paths : List Text) (r : Replayer W) → Agrees 0 r → AllAgree (replay_all io inet a c paths r)
  unfolding replay_all
  replay_all-Agrees [] r h = h
  replay_all-Agrees (path ∷ paths) r h =
      let one = add_file-Agrees (replay_file io inet a c path r) (replay_file-Agrees path r h) in
      elim (Option-cases (add_file io inet a c (replay_file io inet a c path r))) [
        | inl raised ↦ rw (raised, replay_all) tt
        | inr (r', known) ↦
            rw (known, replay_all) (replay_all-Agrees paths r' (subst AllAgree known one))
      ]

  setup-Agrees : (r : Replayer W) → Agrees 0 r → Agrees 0 (setup_pcap_caching io inet a c r)
  unfolding setup_pcap_caching
  setup-Agrees r h = ground arith

  cleanup-Agrees :
      (o : Option (Replayer W))
      → AllAgree o
      → AllAgree (Option.map (cleanup_pcap_caching io inet a c) o)
  unfolding cleanup_pcap_caching
  cleanup-Agrees none h = tt
  cleanup-Agrees (some r) h = ground arith

  -- After `replay_files`, if no file ended it by an exception, the bytes of both directions make the
  -- total of bytes, and the packets of both directions are at most the total of packets, which counts
  -- those that could not be sent as well.
  pub replay_files-Agrees :
      (paths : List Text) (r : Replayer W) → AllAgree (replay_files io inet a c paths r)
  unfolding replay_files
  replay_files-Agrees paths r = cleanup-Agrees _ (
      replay_all-Agrees paths _
        (setup-Agrees (reset_stats r) (record { bytes = refl; packets = omega arith })))
