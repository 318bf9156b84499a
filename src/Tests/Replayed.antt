-- ===== src/Tests/Replayed.antt =====
-- Runs of the packet parsers, the flow table and the frame rewriting of socket_server/replayer.py.
use socket_server.Prelude.{◌≡◌, refl, none, some, List, [], ◌∷◌, ◌++◌, arith, take, drop, replicate}
use socket_server.Prelude.Bytes.{Bytes, codes, eqb}
use socket_server.Replayer.Packet.{FiveTuple, tcp, parse_ethernet, parse_vlan}
use socket_server.Replayer.Flow.{Direction, uplink, Hints, Flows, reversed, get_direction}
use socket_server.Replayer.Flow.Steps.{direction_of, get_direction_kept}
use socket_server.Frame.{Cmsg, add_or_modify_vlan, restore_vlan, find_auxdata, tag_of}
use socket_server.Frame.Tags.{
  parse-add_or_modify_vlan, parse-restore_vlan, parse-add_or_modify_vlan_retags,
}

abbrev key : FiveTuple
key = record {
  mac_src = 1 ∷ [];
  mac_dst = 2 ∷ [];
  ip_src = codes "10.0.0.1";
  ip_dst = codes "10.0.0.2";
  sport = some 1000;
  dport = some 80;
  proto = tcp;
}

abbrev no_hints : Hints
no_hints = record { client_ip_hint = none; server_ip_hint = none }

abbrev empty : Flows
empty = record { flow_table = []; flow_count = 0 }

-- The table knows the reverse of the flow.
abbrev answered : Flows
answered = record {
  flow_table = (reversed key, record { direction = uplink; first_seen_time = (0, 0) }) ∷ [];
  flow_count = 1;
}

get_direction_kept_example :
    let (d, s') = get_direction no_hints key 6 2 (5, 6) answered in
    (direction_of key s'.flow_table ≡ some d)
    × ((k : FiveTuple) (d' : Direction)
        → direction_of k answered.flow_table ≡ some d'
        → direction_of k s'.flow_table ≡ some d')
get_direction_kept_example = get_direction_kept no_hints key 6 2 (5, 6) answered

-- The header of an IPv4 packet with the checksum field at byte 10.
abbrev before : Bytes
before = 69 ∷ 0 ∷ 0 ∷ 20 ∷ 0 ∷ 1 ∷ 0 ∷ 0 ∷ 64 ∷ 6 ∷ []

abbrev after : Bytes
after = 10 ∷ 0 ∷ 0 ∷ 1 ∷ 10 ∷ 0 ∷ 0 ∷ 2 ∷ []

abbrev untagged : Bytes
untagged = 1 ∷ 1 ∷ 1 ∷ 1 ∷ 1 ∷ 1 ∷ 2 ∷ 2 ∷ 2 ∷ 2 ∷ 2 ∷ 2 ∷ 8 ∷ 0 ∷ 69 ∷ []

-- The bytes 16 to 19 hold the TCI 5 and no TPID.
abbrev aux : Bytes
aux = replicate 16 0 ++ (5 ∷ 0 ∷ 0 ∷ 0 ∷ [])

abbrev ancdata : List Cmsg
ancdata = record { cmsg_level = 263; cmsg_type = 8; cmsg_data = aux } ∷ []

parse-add_or_modify_vlan_example :
    (tagged : Bytes) × (add_or_modify_vlan untagged (some 100) ≡ some tagged)
    × (parse_ethernet tagged
        ≡ some (record {
          dst = replicate 6 1;
          src = replicate 6 2;
          eth_type = 0x8100;
          payload = drop 14 tagged;
        }))
    × (parse_vlan (drop 14 tagged)
        ≡ some (record { vlan_id = 100; eth_type = 2048; payload = 69 ∷ [] }))
unfolding eqb
parse-add_or_modify_vlan_example =
    parse-add_or_modify_vlan untagged 100 (omega arith) (omega arith) refl

parse-restore_vlan_example :
    (parse_ethernet (restore_vlan untagged ancdata)
      ≡ some (record {
        dst = replicate 6 1;
        src = replicate 6 2;
        eth_type = 0x8100;
        payload = drop 14 (restore_vlan untagged ancdata);
      }))
    × (parse_vlan (drop 14 (restore_vlan untagged ancdata))
        ≡ some (record { vlan_id = 5; eth_type = 2048; payload = 69 ∷ [] }))
unfolding find_auxdata tag_of
parse-restore_vlan_example =
    parse-restore_vlan untagged ancdata aux 0x8100 5 (omega arith) refl refl (omega arith)
      (omega arith)

-- A frame with the tag 7 and the payload 69, 0, 20.
abbrev tagged_frame : Bytes
tagged_frame = take 12 untagged ++ (129 ∷ 0 ∷ 0 ∷ 7 ∷ 8 ∷ 0 ∷ 69 ∷ 0 ∷ 20 ∷ [])

parse-add_or_modify_vlan_retags_example :
    (tagged : Bytes) × (add_or_modify_vlan tagged_frame (some 100) ≡ some tagged)
    × (parse_ethernet tagged
        ≡ some (record {
          dst = replicate 6 1;
          src = replicate 6 2;
          eth_type = 0x8100;
          payload = drop 14 tagged;
        }))
    × (parse_vlan (drop 14 tagged)
        ≡ some (record { vlan_id = 100; eth_type = 0x4500; payload = 20 ∷ [] }))
unfolding eqb
parse-add_or_modify_vlan_retags_example =
    parse-add_or_modify_vlan_retags tagged_frame 100 (omega arith) (omega arith) refl
