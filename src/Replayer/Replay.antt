-- ===== src/Replayer/Replay.antt =====
-- socket_server/replayer.py, lines 119 to 174 and 636 to 908: `PcapReplayer`, which sends the packets of
-- capture files, counts them and keeps a copy of what it sent. The waits for the rate limit change no
-- state and are left out. Words are in the order of a little-endian machine.
pub mod Counts
use socket_server.Prelude.{
  ℕ, zero, suc, ◌+◌, max, Bool, true, false, not, ◌&&◌, Option, none, some, List, [], ◌∷◌, ◌++◌,
  map, ltb, ◌==◌, if◌then◌else◌, length, take, drop,
}
use socket_server.Prelude.Bytes.{Bytes, Text, codes, eqb, le32, pack_be16, pack_be32}
use mathlib.Core.Option
use socket_server.Frame.{add_or_modify_vlan}
use socket_server.Replayer.Packet.{
  Inet, Ethernet, Ip, parse_ip, parse_transport, FiveTuple, get_five_tuple,
}
use socket_server.Replayer.Flow.{Direction, uplink, downlink, Hints, Flows, get_direction}
use socket_server.Replayer.Build.{Addresses}
use socket_server.Replayer.Modify.{Force, no_force, network_part, is_ip, modify_packet}

-- What the replayer calls, over a world `W`: each call says whether it went well. `usec` is the
-- computation of `_write_pcap_packet` in floating point. The name of a file is its cache file's.
pub record Io (W : Type 0) : Type 0 where
  pub send : Text → Bytes → W → Bool × W
  pub create : Text → W → Bool × W
  pub write : Text → Bytes → W → Bool × W
  pub close : Text → W → W
  pub read_file : Text → W → Option Bytes
  pub usec : ℕ × ℕ → ℕ

-- The arguments of `__init__`.
pub record Config : Type 0 where
  pub uplink_iface : Text
  pub downlink_iface_arg : Option Text
  pub uplink_vlan : Option ℕ
  pub downlink_vlan : Option ℕ
  pub force : Force
  pub force_build_flow : Bool
  pub hints : Hints
  pub cache_enabled : Bool

-- The counters, the flows and the open cache files.
pub record Replayer (W : Type 0) : Type 0 where
  pub total_files : ℕ
  pub total_packets : ℕ
  pub total_bytes : ℕ
  pub uplink_packets : ℕ
  pub downlink_packets : ℕ
  pub uplink_bytes : ℕ
  pub downlink_bytes : ℕ
  pub flows : Flows
  pub uplink_pcap_writer : Bool
  pub downlink_pcap_writer : Bool
  pub single_pcap_writer : Bool
  pub world : W

abbrev pub reset_stats : {W : Type 0} → Replayer W → Replayer W
reset_stats r = record r {
  total_files = 0;
  total_packets = 0;
  total_bytes = 0;
  uplink_packets = 0;
  downlink_packets = 0;
  uplink_bytes = 0;
  downlink_bytes = 0;
  flows = record { flow_table = r.flows.flow_table; flow_count = 0 };
}

-- The header and the records of the cache files: big endian, time in microseconds.
abbrev pcap_global_header : Bytes
pcap_global_header =
    pack_be32 0xA1B2C3D4
    ++ (pack_be16 2
        ++ (pack_be16 4 ++ (pack_be32 0 ++ (pack_be32 0 ++ (pack_be32 65535 ++ pack_be32 1)))))

pcap_record : ℕ → ℕ → Bytes → Bytes
pcap_record ts_sec ts_usec packet_data =
    pack_be32 ts_sec
    ++ (pack_be32 ts_usec
        ++ (pack_be32 (length packet_data) ++ (pack_be32 (length packet_data) ++ packet_data)))

-- How `replay_file` ends: with its count, or by an exception (no file, a short header).
pub data Replayed (W : Type 0) : Type 0 where
  finished : ℕ → Replayer W → Replayed W
  failed : Replayer W → Replayed W
  out_of_fuel : Replayed W

option_eqb : Option ℕ → Option ℕ → Bool
option_eqb none none = true
option_eqb (some m) (some n) = m == n
option_eqb _ _ = false

module _ {W : Type 0} (io : Io W) (inet : Inet) (a : Addresses) (c : Config) where
  -- `downlink_iface if downlink_iface else uplink_iface`
  pub downlink_iface : Text
  downlink_iface = elim c.downlink_iface_arg [
    | none ↦ c.uplink_iface
    | some name ↦ if eqb name [] then c.uplink_iface else name
  ]

  -- The argument itself is compared, not its replacement.
  pub directionless : Bool
  directionless =
      elim c.downlink_iface_arg [ none ↦ false | some name ↦ eqb c.uplink_iface name ]
      && option_eqb c.uplink_vlan c.downlink_vlan

  two_ifaces : Bool
  two_ifaces = not (eqb c.uplink_iface downlink_iface)

  -- The cache file for a packet, if there is one.
  cache_file : Direction → Replayer W → Option Text
  cache_file direction r =
      if not c.cache_enabled
      then none
      else if two_ifaces
      then elim direction [
        | uplink ↦ if r.uplink_pcap_writer then some (codes "uplink.pcap") else none
        | downlink ↦ if r.downlink_pcap_writer then some (codes "downlink.pcap") else none
      ]
      else if r.single_pcap_writer
      then some (codes "combined.pcap")
      else none

  -- `s.send(pkt)` and the copy: both went well, or the exception is logged.
  send_and_cache : Direction → Bytes → ℕ × ℕ → Replayer W → Bool × W
  send_and_cache direction pkt timestamp r =
      let iface : Text = elim direction [ uplink ↦ c.uplink_iface | downlink ↦ downlink_iface ] in
      let (sent, w) = io.send iface pkt r.world in
      if sent
      then elim (cache_file direction r) [
        | none ↦ (true, w)
        | some file ↦ io.write file (pcap_record timestamp.0 (io.usec timestamp) pkt) w
      ]
      else (false, w)

  pub count : Direction → ℕ → Replayer W → Replayer W
  count uplink size r = record r {
    uplink_packets = r.uplink_packets + 1;
    uplink_bytes = r.uplink_bytes + max size 60;
    total_bytes = r.total_bytes + max size 60;
  }
  count downlink size r = record r {
    downlink_packets = r.downlink_packets + 1;
    downlink_bytes = r.downlink_bytes + max size 60;
    total_bytes = r.total_bytes + max size 60;
  }

  counted : Direction → ℕ → Replayer W → Bool × W → Replayer W
  counted direction size r (true, w) = count direction size (record r { world = w })
  counted direction size r (false, w) = record r { world = w }

  -- The frame that is sent; none is an exception.
  pub outgoing : Bytes → Direction → Option FiveTuple → Replayer W → Option Bytes
  outgoing raw_pkt direction key r =
      elim (modify_packet inet a c.force r.flows.flow_table raw_pkt key direction) [
        | none ↦ none
        | some pkt ↦
            add_or_modify_vlan pkt
              (elim direction [ uplink ↦ c.uplink_vlan | downlink ↦ c.downlink_vlan ])
      ]

  -- `send_packet`; none is an exception before anything was sent.
  pub send_packet :
      Bytes → Direction → Option FiveTuple → ℕ → ℕ × ℕ → Replayer W → Option (Replayer W)
  send_packet raw_pkt direction key size timestamp r = elim (outgoing raw_pkt direction key r) [
    | none ↦ none
    | some pkt ↦ some (counted direction size r (send_and_cache direction pkt timestamp r))
  ]

  -- A packet that was sent is counted by `replay_file`; an exception is logged, and the loop goes on.
  pub or_skipped : Option (Replayer W) → Replayer W → ℕ × Replayer W
  or_skipped none r = (0, r)
  or_skipped (some r') r = (1, r')

  -- A packet of IP that could be read.
  pub replay_ip : Ethernet → Ip → Bytes → ℕ → ℕ × ℕ → Replayer W → ℕ × Replayer W
  replay_ip eth ip pkt_data orig_len timestamp r =
      if directionless && (no_force c.force && not c.force_build_flow)
      then or_skipped (send_packet pkt_data uplink none orig_len timestamp r) r
      else (let tr = parse_transport ip.proto ip.trans in
          let key = get_five_tuple eth ip tr in
          let (direction, flows) = get_direction c.hints key ip.proto tr.flags timestamp r.flows in
          let found = record r { flows = flows } in
          or_skipped (send_packet pkt_data direction (some key) orig_len timestamp found) found)

  -- The body of the loop under `try`.
  pub replay_packet : Bytes → ℕ → ℕ × ℕ → Replayer W → ℕ × Replayer W
  replay_packet pkt_data orig_len timestamp r = elim (network_part pkt_data) [
    | none ↦ (0, r)
    | some part ↦
        if is_ip part.1.0
        then elim (parse_ip inet part.1.1) [
          | none ↦ (0, r)
          | some ip ↦
              if eqb ip.ip_src [] then (0, r) else replay_ip part.0 ip pkt_data orig_len timestamp r
        ]
        else (0, r)
  ]

  -- The loop over the records. Each takes a byte at least, so the file's length is enough fuel.
  pub replay_records : ℕ → Bytes → ℕ → Replayer W → Replayed W
  replay_records fuel [] n r = finished n r
  replay_records zero (b ∷ bs) n r = out_of_fuel
  replay_records (suc fuel) (b ∷ bs) n r =
      let body = drop 16 (b ∷ bs) in
      let incl_len = le32 (drop 8 (b ∷ bs)) in
      let orig_len = le32 (drop 12 (b ∷ bs)) in
      let timestamp : ℕ × ℕ = (le32 (b ∷ bs), le32 (drop 4 (b ∷ bs))) in
      if ltb (length (b ∷ bs)) 16
      then failed r
      else (let (k, r') = replay_packet (take incl_len body) orig_len timestamp r in
          replay_records fuel (drop incl_len body) (n + k) r')

  pub replay_file : Text → Replayer W → Replayed W
  replay_file file_path r = elim (io.read_file file_path r.world) [
    | none ↦ failed r
    | some file ↦
        if ltb (length file) 24
        then failed r
        else replay_records (length (drop 24 file)) (drop 24 file) 0 r
  ]

  -- A cache file with its header; the writer is None if either call raises.
  open_writer : Text → W → Bool × W
  open_writer file w =
      let (created, w₁) = io.create file w in
      if created then io.write file pcap_global_header w₁ else (false, w₁)

  -- `_setup_pcap_caching`; the directory is there.
  pub setup_pcap_caching : Replayer W → Replayer W
  setup_pcap_caching r =
      if not c.cache_enabled
      then r
      else if two_ifaces
      then (let (up, w₁) = open_writer (codes "uplink.pcap") r.world in
          let (down, w₂) = open_writer (codes "downlink.pcap") w₁ in
          record r { uplink_pcap_writer = up; downlink_pcap_writer = down; world = w₂ })
      else (let (single, w₁) = open_writer (codes "combined.pcap") r.world in
          record r { single_pcap_writer = single; world = w₁ })

  close_writer : Bool → Text → W → W
  close_writer open_now file w = if open_now then io.close file w else w

  -- `_cleanup_pcap_caching`: the files are closed, and the writers stay set.
  pub cleanup_pcap_caching : Replayer W → Replayer W
  cleanup_pcap_caching r = if not c.cache_enabled then r else record r {
    world = close_writer r.single_pcap_writer (codes "combined.pcap") (
        close_writer r.downlink_pcap_writer (codes "downlink.pcap")
          (close_writer r.uplink_pcap_writer (codes "uplink.pcap") r.world));
  }

  -- One file of `replay_files`, whose packets are added to the total.
  pub add_file : Replayed W → Option (Replayer W)
  add_file (finished n r) =
      some (record r { total_files = r.total_files + 1; total_packets = r.total_packets + n })
  add_file (failed r) = none
  add_file out_of_fuel = none

  -- The loop of `replay_files`; none is the exception of a file, which ends the whole call.
  pub replay_all : List Text → Replayer W → Option (Replayer W)
  replay_all [] r = some r
  replay_all (file_path ∷ file_paths) r = elim (add_file (replay_file file_path r)) [
    | none ↦ none
    | some r' ↦ replay_all file_paths r'
  ]

  -- `replay_files`, its sockets bound already.
  pub replay_files : List Text → Replayer W → Option (Replayer W)
  replay_files file_paths r =
      Option.map cleanup_pcap_caching (replay_all file_paths (setup_pcap_caching (reset_stats r)))
