-- ===== src/Replayer/Modify/Turn.antt =====
-- socket_server/replayer.py, lines 571 to 634: a packet that is not modified.
use socket_server.Prelude.{ℕ, ◌<◌, ◌≡◌, refl, Option, none, some, arith, get_or, drop}
use socket_server.Prelude.Bytes.{Bytes}
use socket_server.Replayer.Packet.{Inet, Ethernet, FiveTuple}
use socket_server.Replayer.Flow.{Direction, FlowInfo, FlowTable, find_flow}
use socket_server.Replayer.Build.{Addresses}
use socket_server.Replayer.Build.Kept.{build_modified_packet-kept}
use socket_server.Replayer.Modify.{
  Force, target, network_part, original, modify_parsed, modify_packet,
}

modify_parsed-kept :
    (inet : Inet) (a : Addresses) (f : Force) (frame : Bytes) (direction : Direction)
    (part : Option (Ethernet × (ℕ × Bytes)))
    → get_or (drop 14 frame) 0 0 < 64
    → modify_parsed inet a f direction frame part ≡ frame
unfolding modify_parsed
modify_parsed-kept inet a f frame direction none low = refl
modify_parsed-kept inet a f frame direction (some (eth, (eth_type, payload))) low =
    ground
      (arith, build_modified_packet-kept a (target f direction (original inet payload)) frame low)

-- A frame of a flow in the table whose byte 14 is below 64 is sent with the addresses and ports
-- that it has, whatever is forced. In a frame with a tag that byte begins the tag, and every tag
-- of priority 0 or 1 is so.
pub modify_packet-kept :
    (inet : Inet) (a : Addresses) (f : Force) (table : FlowTable) (frame : Bytes) (key : FiveTuple)
    (info : FlowInfo) (direction : Direction)
    → find_flow key table ≡ some info
    → get_or (drop 14 frame) 0 0 < 64
    → modify_packet inet a f table frame (some key) direction ≡ some frame
unfolding modify_packet
modify_packet-kept inet a f table frame key info direction known low =
    ground (arith, known, modify_parsed-kept inet a f frame direction (network_part frame) low)
