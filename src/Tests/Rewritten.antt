-- ===== src/Tests/Rewritten.antt =====
-- Runs of the packet rewriting and of the replay of socket_server/replayer.py.
use socket_server.Prelude.{
  ◌≡◌, refl, true, false, none, some, List, [], ◌∷◌, ◌++◌, arith, take, drop, replicate,
}
use socket_server.Prelude.Bytes.{Bytes, codes, eqb, pack_le32}
use socket_server.Frame.{checksum}
use socket_server.Replayer.Packet.{Inet, ipv4, parse_ip, FiveTuple, tcp}
use socket_server.Replayer.Flow.{uplink, FlowInfo, find_flow, key_eqb, port_eqb, proto_eqb}
use socket_server.Replayer.Build.Run.{by_length, udp_target, udp_rest, udp_new, rewrite_v4_run}
use socket_server.Replayer.Build.Header.{rewrite_v4-parsed}
use socket_server.Replayer.Modify.{Force, modify_packet}
use socket_server.Replayer.Modify.Turn.{modify_packet-kept}
use socket_server.Replayer.Replay.{Io, Config, Replayer, replay_files}
use socket_server.Replayer.Replay.Counts.{AllAgree, replay_files-Agrees}

abbrev plain_inet : Inet
plain_inet = record { ntoa = λ b. b; ntop = λ b. b }

rewrite_v4-parsed_example :
    (parse_ip plain_inet udp_new
      ≡ some (record {
        version = ipv4;
        ip_src = 10 ∷ 0 ∷ 0 ∷ 1 ∷ [];
        ip_dst = 10 ∷ 0 ∷ 0 ∷ 2 ∷ [];
        proto = 17;
        trans = drop 20 udp_new;
      }))
    × (checksum (take 20 udp_new) ≡ 0)
rewrite_v4-parsed_example =
    rewrite_v4-parsed by_length udp_target 97 [] 98 (98 ∷ []) (10 ∷ 0 ∷ 0 ∷ 1 ∷ [])
      (10 ∷ 0 ∷ 0 ∷ 2 ∷ []) refl refl refl refl refl refl plain_inet 69 udp_rest udp_new
      (ground arith) (ground arith) (ground arith) refl (omega arith) (omega arith) rewrite_v4_run

abbrev force : Force
force = record {
  force_ip_src = some (codes "a");
  force_ip_dst = none;
  force_sport = some 7;
  force_dport = none;
}

abbrev key : FiveTuple
key = record {
  mac_src = [];
  mac_dst = [];
  ip_src = codes "1";
  ip_dst = codes "2";
  sport = none;
  dport = none;
  proto = tcp;
}

abbrev info : FlowInfo
info = record { direction = uplink; first_seen_time = (0, 0) }

-- A frame with the tag 5 of priority 0.
abbrev tagged : Bytes
tagged = replicate 12 1 ++ (129 ∷ 0 ∷ 0 ∷ 5 ∷ 8 ∷ 0 ∷ 69 ∷ udp_rest)

modify_packet-kept_example :
    modify_packet plain_inet by_length force ((key, info) ∷ []) tagged (some key) uplink
    ≡ some tagged
unfolding find_flow key_eqb eqb port_eqb proto_eqb
modify_packet-kept_example =
    modify_packet-kept plain_inet by_length force ((key, info) ∷ []) tagged key info uplink refl
      (omega arith)

-- A world that holds what was sent, the last first; one capture file has the frame of `udp_rest`.
abbrev sent_io : Io (List Bytes)
sent_io = record {
  send = λ iface pkt w. (true, pkt ∷ w);
  create = λ file w. (true, w);
  write = λ file b w. (true, w);
  close = λ file w. w;
  read_file = λ path w. some (
      replicate 24 0
      ++ (replicate 8 0
          ++ (pack_le32 42 ++ (pack_le32 42 ++ (replicate 12 1 ++ (8 ∷ 0 ∷ 69 ∷ udp_rest))))));
  usec = λ ts. ts.1;
}

abbrev config : Config
config = record {
  uplink_iface = codes "eth0";
  downlink_iface_arg = none;
  uplink_vlan = none;
  downlink_vlan = none;
  force = force;
  force_build_flow = true;
  hints = record { client_ip_hint = none; server_ip_hint = none };
  cache_enabled = true;
}

abbrev replayer : Replayer (List Bytes)
replayer = record {
  total_files = 0;
  total_packets = 0;
  total_bytes = 0;
  uplink_packets = 0;
  downlink_packets = 0;
  uplink_bytes = 0;
  downlink_bytes = 0;
  flows = record { flow_table = []; flow_count = 0 };
  uplink_pcap_writer = false;
  downlink_pcap_writer = false;
  single_pcap_writer = false;
  world = [];
}

replay_files-Agrees_example :
    AllAgree sent_io plain_inet by_length config
      (replay_files sent_io plain_inet by_length config (codes "a" ∷ []) replayer)
replay_files-Agrees_example =
    replay_files-Agrees sent_io plain_inet by_length config (codes "a" ∷ []) replayer
