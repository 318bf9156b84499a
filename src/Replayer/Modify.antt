-- ===== src/Replayer/Modify.antt =====
-- socket_server/replayer.py, lines 571 to 634: `modify_packet`, which turns the forced addresses and ports
-- round for packets of the other direction.
pub mod Turn
use socket_server.Prelude.{ℕ, Bool, true, false, ◌||◌, Option, none, some, ◌∷◌, ◌==◌, if◌then◌else◌}
use socket_server.Prelude.Bytes.{Bytes, Text}
use socket_server.Replayer.Packet.{
  Inet, Ethernet, parse_ethernet, parse_vlan, parse_ip, parse_transport, FiveTuple,
}
use socket_server.Replayer.Flow.{Direction, uplink, downlink, FlowTable, find_flow}
use socket_server.Replayer.Build.{Addresses, Target, build_modified_packet}

-- The fields that are forced, where they are given.
pub record Force : Type 0 where
  pub force_ip_src : Option Text
  pub force_ip_dst : Option Text
  pub force_sport : Option ℕ
  pub force_dport : Option ℕ

-- `all(x is None for x in …)`
pub no_force : Force → Bool
no_force f = elim f.force_ip_src [
  | some _ ↦ false
  | none ↦ elim f.force_ip_dst [
    | some _ ↦ false
    | none ↦ elim f.force_sport [
      | some _ ↦ false
      | none ↦ elim f.force_dport [ some _ ↦ false | none ↦ true ]
    ]
  ]
]

-- `if forced: field = forced`
or_text : Option Text → Option Text → Option Text
or_text (some (c ∷ cs)) field = some (c ∷ cs)
or_text _ field = field

or_port : Option ℕ → Option ℕ → Option ℕ
or_port none field = field
or_port (some port) field = if port == 0 then field else some port

-- The addresses and ports of the packet, and those that it gets: the forced ones belong to the
-- uplink direction.
pub target : Force → Direction → Target → Target
target f uplink t = record {
  modified_ip_src = or_text f.force_ip_src t.modified_ip_src;
  modified_ip_dst = or_text f.force_ip_dst t.modified_ip_dst;
  modified_sport = or_port f.force_sport t.modified_sport;
  modified_dport = or_port f.force_dport t.modified_dport;
}
target f downlink t = record {
  modified_ip_src = or_text f.force_ip_dst t.modified_ip_src;
  modified_ip_dst = or_text f.force_ip_src t.modified_ip_dst;
  modified_sport = or_port f.force_dport t.modified_sport;
  modified_dport = or_port f.force_sport t.modified_dport;
}

-- What a frame carries: the type behind its tag, if it has one, and the bytes behind. None is the
-- exception of an unpack.
pub network_part : Bytes → Option (Ethernet × (ℕ × Bytes))
network_part eth_bytes = elim (parse_ethernet eth_bytes) [
  | none ↦ none
  | some eth ↦
      if eth.eth_type == 0x8100
      then elim (parse_vlan eth.payload) [
        | none ↦ none
        | some tag ↦ some (eth, (tag.eth_type, tag.payload))
      ]
      else some (eth, (eth.eth_type, eth.payload))
]

-- `eth_type in (0x0800, 0x86DD)`
abbrev pub is_ip : ℕ → Bool
is_ip eth_type = (eth_type == 0x0800) || (eth_type == 0x86dd)

-- What the parsers read of the packet; a packet that they cannot read has no fields.
pub original : Inet → Bytes → Target
original inet payload = elim (parse_ip inet payload) [
  | none ↦ record {
    modified_ip_src = none;
    modified_ip_dst = none;
    modified_sport = none;
    modified_dport = none;
  }
  | some ip ↦
      let tr = parse_transport ip.proto ip.trans in
      record {
        modified_ip_src = some ip.ip_src;
        modified_ip_dst = some ip.ip_dst;
        modified_sport = tr.sport;
        modified_dport = tr.dport;
      }
]

module _ (inet : Inet) (a : Addresses) (f : Force) where
  modify_parsed : Direction → Bytes → Option (Ethernet × (ℕ × Bytes)) → Bytes
  modify_parsed direction eth_bytes none = eth_bytes
  modify_parsed direction eth_bytes (some (eth, (eth_type, payload))) =
      if is_ip eth_type
      then build_modified_packet a (target f direction (original inet payload)) eth_bytes
      else eth_bytes

  -- `modify_packet`: none is the KeyError for a flow that the table does not have.
  pub modify_packet : FlowTable → Bytes → Option FiveTuple → Direction → Option Bytes
  modify_packet table eth_bytes none direction = some eth_bytes
  modify_packet table eth_bytes (some key) direction =
      if no_force f then some eth_bytes else elim (find_flow key table) [
        | none ↦ none
        | some flow_info ↦ some (modify_parsed direction eth_bytes (network_part eth_bytes))
      ]
