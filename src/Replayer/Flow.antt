-- ===== src/Replayer/Flow.antt =====
-- socket_server/replayer.py, lines 229 to 292: `get_direction`, which gives a packet the direction of its
-- flow and keeps the flow table. A time stamp is kept as the two words of the record's header.
pub mod Keys
pub mod Steps
use socket_server.Prelude.{
  ℕ, ◌+◌, ◌/◌, ◌%◌, Bool, true, false, not, ◌&&◌, Option, none, some, List, [], ◌∷◌, ◌==◌,
  if◌then◌else◌,
}
use socket_server.Prelude.Bytes.{Text, eqb}
use socket_server.Replayer.Packet.{FiveTuple, Protocol, tcp, udp, other}

pub data Direction : Type 0 where
  uplink downlink : Direction

-- `FlowInfo` without the fields that `modify_packet` writes over on each packet.
pub record FlowInfo : Type 0 where
  pub direction : Direction
  pub first_seen_time : ℕ × ℕ

abbrev pub FlowTable : Type 0
FlowTable = List (FiveTuple × FlowInfo)

-- What `get_direction` reads of the replayer, and what it changes.
pub record Hints : Type 0 where
  pub client_ip_hint : Option Text
  pub server_ip_hint : Option Text

pub record Flows : Type 0 where
  pub flow_table : FlowTable
  pub flow_count : ℕ

unfoldable pub port_eqb : Option ℕ → Option ℕ → Bool
port_eqb none none = true
port_eqb none (some n) = false
port_eqb (some m) none = false
port_eqb (some m) (some n) = m == n

unfoldable pub proto_eqb : Protocol → Protocol → Bool
proto_eqb tcp tcp = true
proto_eqb udp udp = true
proto_eqb other other = true
proto_eqb _ _ = false

-- `==` of the named tuples.
unfoldable pub key_eqb : FiveTuple → FiveTuple → Bool
key_eqb k j =
    eqb k.mac_src j.mac_src
    && (eqb k.mac_dst j.mac_dst
        && (eqb k.ip_src j.ip_src
            && (eqb k.ip_dst j.ip_dst
                && (port_eqb k.sport j.sport
                    && (port_eqb k.dport j.dport && proto_eqb k.proto j.proto)))))

unfoldable pub find_flow : FiveTuple → FlowTable → Option FlowInfo
find_flow k [] = none
find_flow k ((j, f) ∷ t) = if key_eqb k j then some f else find_flow k t

-- `self.flow_table[key] = …` for a key that is not there.
pub add_flow : FiveTuple → FlowInfo → FlowTable → FlowTable
add_flow k f [] = (k, f) ∷ []
add_flow k f ((j, g) ∷ t) = if key_eqb k j then (j, f) ∷ t else (j, g) ∷ add_flow k f t

unfoldable pub reversed : FiveTuple → FiveTuple
reversed k = record {
  mac_src = k.mac_dst;
  mac_dst = k.mac_src;
  ip_src = k.ip_dst;
  ip_dst = k.ip_src;
  sport = k.dport;
  dport = k.sport;
  proto = k.proto;
}

abbrev pub opposite : Direction → Direction
opposite uplink = downlink
opposite downlink = uplink

-- A hint that is given and not empty.
unfoldable pub given : Option Text → Option Text
given (some (c ∷ cs)) = some (c ∷ cs)
given _ = none

-- SYN without ACK: bit 1 of the flags, and not bit 4.
abbrev pub is_syn : ℕ → Bool
is_syn flags = (flags / 2 % 2 == 1) && not (flags / 16 % 2 == 1)

pub by_hints : Text → Text → FiveTuple → Direction
by_hints client server key =
    if eqb key.ip_src client && eqb key.ip_dst server
    then uplink
    else if eqb key.ip_src server && eqb key.ip_dst client
    then downlink
    else uplink

pub by_packet : FiveTuple → ℕ → ℕ → FlowTable → Direction
by_packet key proto flags table =
    if (proto == 6) && is_syn flags
    then uplink
    else elim (find_flow (reversed key) table) [ none ↦ uplink | some f ↦ opposite f.direction ]

-- The direction of a flow that is not in the table. With both hints given the other tests are not made,
-- also if the addresses match neither way.
pub new_direction : Hints → FiveTuple → ℕ → ℕ → FlowTable → Direction
unfolding given
new_direction h key proto flags table = elim (given h.client_ip_hint) [
  | none ↦ by_packet key proto flags table
  | some client ↦ elim (given h.server_ip_hint) [
    | none ↦ by_packet key proto flags table
    | some server ↦ by_hints client server key
  ]
]

pub enter_flow : Direction → FiveTuple → ℕ × ℕ → Flows → Flows
enter_flow direction key timestamp s = record {
  flow_table =
      add_flow key (record { direction = direction; first_seen_time = timestamp }) s.flow_table;
  flow_count = elim (find_flow (reversed key) s.flow_table) [
    | none ↦ s.flow_count + 1
    | some _ ↦ s.flow_count
  ];
}

pub get_direction : Hints → FiveTuple → ℕ → ℕ → ℕ × ℕ → Flows → Direction × Flows
get_direction h key proto flags timestamp s = elim (find_flow key s.flow_table) [
  | some f ↦ (f.direction, s)
  | none ↦
      let direction = new_direction h key proto flags s.flow_table in
      (direction, enter_flow direction key timestamp s)
]
