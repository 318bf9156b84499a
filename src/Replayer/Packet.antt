-- ===== src/Replayer/Packet.antt =====
-- socket_server/replayer.py, lines 176 to 227: the parsers of a frame. A slice that is too short makes
-- `struct.unpack` raise, which is `none` here; `parse_ip` and `parse_transport` catch what they raise.
use socket_server.Prelude.{
  ℕ, ◌-◌, ◌*◌, ◌/◌, ◌%◌, ◌&&◌, ◌||◌, Option, none, some, ltb, ◌==◌, if◌then◌else◌, length, get_or,
  take, drop,
}
use socket_server.Prelude.Bytes.{Bytes, Text, be16}

-- `socket.inet_ntoa` and `socket.inet_ntop(AF_INET6, …)` on their 4 and 16 bytes.
pub record Inet : Type 0 where
  pub ntoa : Bytes → Text
  pub ntop : Bytes → Text

pub record Ethernet : Type 0 where
  pub dst : Bytes
  pub src : Bytes
  pub eth_type : ℕ
  pub payload : Bytes

unfoldable pub parse_ethernet : Bytes → Option Ethernet
parse_ethernet frame =
    if ltb (length frame) 14
    then none
    else some (record {
      dst = take 6 frame;
      src = take 6 (drop 6 frame);
      eth_type = be16 (drop 12 frame);
      payload = drop 14 frame;
    })

-- The VLAN id is the low 12 bits of the tag.
pub record Vlan : Type 0 where
  pub vlan_id : ℕ
  pub eth_type : ℕ
  pub payload : Bytes

unfoldable pub parse_vlan : Bytes → Option Vlan
parse_vlan payload =
    if ltb (length payload) 4
    then none
    else some (record {
      vlan_id = be16 payload % 4096;
      eth_type = be16 (drop 2 payload);
      payload = drop 4 payload;
    })

pub data Version : Type 0 where
  ipv4 ipv6 : Version

pub record Ip : Type 0 where
  pub version : Version
  pub ip_src : Text
  pub ip_dst : Text
  pub proto : ℕ
  pub trans : Bytes

-- `payload[i:j]`
abbrev pub slice : ℕ → ℕ → Bytes → Bytes
slice i j s = take (j - i) (drop i s)

-- The order of the reads does not matter: each failure gives the same five `None`s.
unfoldable pub parse_ip : Inet → Bytes → Option Ip
parse_ip inet payload =
    let first = get_or payload 0 0 in
    if length payload == 0
    then none
    else if first / 16 == 4
    then (if ltb (length payload) 20
        then none
        else some (record {
          version = ipv4;
          ip_src = inet.ntoa (slice 12 16 payload);
          ip_dst = inet.ntoa (slice 16 20 payload);
          proto = get_or payload 9 0;
          trans = drop (first % 16 * 4) payload;
        }))
    else if first / 16 == 6
    then (if ltb (length payload) 40
        then none
        else some (record {
          version = ipv6;
          ip_src = inet.ntop (slice 8 24 payload);
          ip_dst = inet.ntop (slice 24 40 payload);
          proto = get_or payload 6 0;
          trans = drop 40 payload;
        }))
    else none

pub record Transport : Type 0 where
  pub sport : Option ℕ
  pub dport : Option ℕ
  pub flags : ℕ

unfoldable pub parse_transport : ℕ → Bytes → Transport
parse_transport proto payload =
    if (proto == 6) || (proto == 17)
    then (if ltb (length payload) 4
        then record { sport = none; dport = none; flags = 0 }
        else record {
          sport = some (be16 payload);
          dport = some (be16 (drop 2 payload));
          flags = if (proto == 6) && ltb 13 (length payload) then get_or payload 13 0 else 0;
        })
    else record { sport = none; dport = none; flags = 0 }

pub data Protocol : Type 0 where
  tcp udp other : Protocol

pub record FiveTuple : Type 0 where
  pub mac_src : Bytes
  pub mac_dst : Bytes
  pub ip_src : Text
  pub ip_dst : Text
  pub sport : Option ℕ
  pub dport : Option ℕ
  pub proto : Protocol

unfoldable pub get_five_tuple : Ethernet → Ip → Transport → FiveTuple
get_five_tuple eth ip tr = record {
  mac_src = eth.src;
  mac_dst = eth.dst;
  ip_src = ip.ip_src;
  ip_dst = ip.ip_dst;
  sport = tr.sport;
  dport = tr.dport;
  proto = if ip.proto == 6 then tcp else if ip.proto == 17 then udp else other;
}
