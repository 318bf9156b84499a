-- ===== src/PcapFlow.antt =====
-- socket_server/pcap_flow.py: `extract_pcap_flow_five_tuples`, the conversations of capture files with
-- their clients. The files below the directory are given with their bytes (none: a read raised). Words
-- are in the order of a little-endian machine.
pub mod Ends
pub mod Clients
pub mod Locked
use socket_server.Prelude.{
  ℕ, zero, suc, ◌+◌, ◌*◌, ◌/◌, ◌%◌, Bool, true, false, not, ◌&&◌, ◌||◌, Option, none, some, List,
  [], ◌∷◌, ◌++◌, map, ltb, ◌==◌, if◌then◌else◌, length, get_or, take, drop,
}
use socket_server.Prelude.Bytes.{Bytes, Text, codes, eqb, starts_with, be16, le32}
use socket_server.Replayer.Packet.{Inet, slice}
use socket_server.Replayer.Build.{◌>>=◌}

-- An address with a port, as texts.
abbrev pub Endpoint : Type 0
Endpoint = Text × Text

pub data ProtoType : Type 0 where
  tcp udp sctp icmp : ProtoType

-- `sorted` on the two ends: texts and pairs are compared from the left.
unfoldable pub text_leb : Text → Text → Bool
text_leb [] t = true
text_leb (x ∷ xs) [] = false
text_leb (x ∷ xs) (y ∷ ys) = if ltb x y then true else if x == y then text_leb xs ys else false

pub end_leb : Endpoint → Endpoint → Bool
end_leb a b = if eqb a.0 b.0 then text_leb a.1 b.1 else text_leb a.0 b.0

abbrev pub FlowKey : Type 0
FlowKey = Endpoint × (Endpoint × ProtoType)

pub canonical : Endpoint → Endpoint → ProtoType → FlowKey
canonical src dst proto_type =
    if end_leb src dst then (src, (dst, proto_type)) else (dst, (src, proto_type))

-- `str(n)`; a number has fewer digits than its value and one.
digits : ℕ → ℕ → Text → Text
digits zero n more = more
digits (suc fuel) n more =
    let rest = digits fuel (n / 10) ((48 + n % 10) ∷ more) in
    if ltb n 10 then (48 + n) ∷ more else rest

pub str : ℕ → Text
str n = digits (suc n) n []

-- What the loop has of a packet when it looks for its flow.
pub record Seen : Type 0 where
  pub src_tuple : Endpoint
  pub dst_tuple : Endpoint
  pub proto : ℕ
  pub proto_type : ProtoType
  pub flags : ℕ
  pub trans : Bytes

proto_type_of : ℕ → Option ProtoType
proto_type_of proto =
    if proto == 6
    then some tcp
    else if proto == 17
    then some udp
    else if proto == 132
    then some sctp
    else if (proto == 1) || (proto == 58)
    then some icmp
    else none

-- The type behind the tag and the bytes behind it.
pub network_part : Bytes → Option (ℕ × Bytes)
network_part pkt_data =
    let payload = drop 14 pkt_data in
    if ltb (length pkt_data) 14
    then none
    else if be16 (drop 12 pkt_data) == 0x8100
    then (if ltb (length payload) 4 then none else some (be16 (drop 2 payload), drop 4 payload))
    else some (be16 (drop 12 pkt_data), payload)

-- Addresses, protocol and what stands behind the header of IP.
ip_part : Inet → ℕ → Bytes → Option ((Text × Text) × (ℕ × Bytes))
ip_part inet eth_type payload =
    if eth_type == 0x0800
    then (if ltb (length payload) 20
        then none
        else some (
          (inet.ntoa (slice 12 16 payload), inet.ntoa (slice 16 20 payload)),
          (get_or payload 9 0, drop (get_or payload 0 0 % 16 * 4) payload),
        ))
    else if eth_type == 0x86dd
    then (if ltb (length payload) 40
        then none
        else some (
          (inet.ntop (slice 8 24 payload), inet.ntop (slice 24 40 payload)),
          (get_or payload 6 0, drop 40 payload),
        ))
    else none

pub ends : Text × Text → ℕ → Bytes → ProtoType → Option Seen
ends (ip_src, ip_dst) proto trans icmp = some (record {
  src_tuple = (ip_src, codes "0");
  dst_tuple = (ip_dst, codes "0");
  proto = proto;
  proto_type = icmp;
  flags = 0;
  trans = trans;
})
ends (ip_src, ip_dst) proto trans proto_type =
    if ltb (length trans) 4
    then none
    else some (record {
      src_tuple = (ip_src, str (be16 trans));
      dst_tuple = (ip_dst, str (be16 (drop 2 trans)));
      proto = proto;
      proto_type = proto_type;
      flags = if (proto == 6) && ltb 13 (length trans) then get_or trans 13 0 else 0;
      trans = trans;
    })

-- The parser of the loop; none is `continue`.
pub read_packet : Inet → Bytes → Option Seen
read_packet inet pkt_data = do
  network ← network_part pkt_data
  ip ← ip_part inet network.0 network.1
  proto_type ← proto_type_of ip.1.0
  ends ip.0 ip.1.0 ip.1.1 proto_type

pub record Flow : Type 0 where
  pub first_src : Endpoint
  pub first_dst : Endpoint
  pub client : Endpoint
  pub finalized : Bool
  pub proto_type : ProtoType

abbrev pub Flows : Type 0
Flows = List (FlowKey × Flow)

abbrev http_request_methods : List Bytes
http_request_methods =
    codes "GET "
    ∷ codes "POST "
    ∷ codes "PUT "
    ∷ codes "HEAD "
    ∷ codes "DELETE "
    ∷ codes "OPTIONS "
    ∷ codes "PATCH "
    ∷ codes "CONNECT "
    ∷ codes "TRACE "
    ∷ []

starts_with_any : List Bytes → Bytes → Bool
starts_with_any [] s = false
starts_with_any (p ∷ ps) s = starts_with p s || starts_with_any ps s

-- SYN, and ACK.
abbrev has_syn : ℕ → Bool
has_syn flags = flags / 2 % 2 == 1

abbrev has_ack : ℕ → Bool
has_ack flags = flags / 16 % 2 == 1

-- The client by the handshake, by the text of HTTP, and by both.
pub by_handshake : Seen → Option Endpoint
by_handshake p =
    if (p.proto == 6) && has_syn p.flags
    then (if has_ack p.flags then some p.dst_tuple else some p.src_tuple)
    else none

pub by_http : Seen → Option Endpoint
by_http p =
    let http_payload = drop (get_or p.trans 12 0 / 16 * 4) p.trans in
    if (p.proto == 6) && not (ltb (length p.trans) 14)
    then (if starts_with_any http_request_methods http_payload
        then some p.src_tuple
        else if starts_with (codes "HTTP/1.") http_payload
        then some p.dst_tuple
        else none)
    else none

pub signaled_client : Seen → Option Endpoint
signaled_client p = elim (by_handshake p) [ some client ↦ some client | none ↦ by_http p ]

-- A signal decides the client of a flow that is not decided.
pub decide : Flow → Option Endpoint → Flow
decide flow none = flow
decide flow (some client) = record flow { client = client; finalized = true }

pub signal : Seen → Flow → Flow
signal p flow = if flow.finalized then flow else decide flow (signaled_client p)

proto_type_eqb : ProtoType → ProtoType → Bool
proto_type_eqb tcp tcp = true
proto_type_eqb udp udp = true
proto_type_eqb sctp sctp = true
proto_type_eqb icmp icmp = true
proto_type_eqb _ _ = false

-- `==` of the keys.
pub key_eqb : FlowKey → FlowKey → Bool
key_eqb (a, (b, t)) (a', (b', t')) =
    (eqb a.0 a'.0 && eqb a.1 a'.1) && ((eqb b.0 b'.0 && eqb b.1 b'.1) && proto_type_eqb t t')

pub new_flow : Seen → Flow
new_flow p = record {
  first_src = p.src_tuple;
  first_dst = p.dst_tuple;
  client = p.src_tuple;
  finalized = false;
  proto_type = p.proto_type;
}

-- The flow of a packet is found or entered, and the packet's signal is applied to it.
pub enter : FlowKey → Seen → Flows → Flows
enter k p [] = (k, signal p (new_flow p)) ∷ []
enter k p ((j, flow) ∷ flows) =
    if key_eqb k j then (j, signal p flow) ∷ flows else (j, flow) ∷ enter k p flows

pub see : Option Seen → Flows → Flows
see none flows = flows
see (some p) flows = enter (canonical p.src_tuple p.dst_tuple p.proto_type) p flows

-- The loop over the records of a file; each takes 16 bytes, so its length is enough fuel.
pub read_records : Inet → ℕ → Bytes → Flows → Flows
read_records inet zero f flows = flows
read_records inet (suc fuel) f flows =
    let body = drop 16 f in
    let incl_len = le32 (drop 8 f) in
    let rest =
      read_records inet fuel (drop incl_len body)
        (see (read_packet inet (take incl_len body)) flows) in
    if ltb (length f) 16 then flows else if ltb (length body) incl_len then flows else rest

-- One entry of the result.
pub record FiveTupleOf : Type 0 where
  pub pcap : Text
  pub src : Endpoint
  pub dest : Endpoint
  pub proto_type : ProtoType

pub direct : Text → Flow → FiveTupleOf
direct pcap flow =
    if eqb flow.client.0 flow.first_src.0 && eqb flow.client.1 flow.first_src.1
    then record {
      pcap = pcap;
      src = flow.first_src;
      dest = flow.first_dst;
      proto_type = flow.proto_type;
    }
    else record {
      pcap = pcap;
      src = flow.first_dst;
      dest = flow.first_src;
      proto_type = flow.proto_type;
    }

pub flows_of : Inet → Bytes → Flows
flows_of inet file = read_records inet (length file) (drop 24 file) []

extract_file : Inet → Text → Option Bytes → List FiveTupleOf
extract_file inet pcap none = []
extract_file inet pcap (some file) = map (λ entry. direct pcap entry.1) (flows_of inet file)

extract_pcap_flow_five_tuples : Inet → List (Text × Option Bytes) → List FiveTupleOf
extract_pcap_flow_five_tuples inet [] = []
extract_pcap_flow_five_tuples inet ((pcap, file) ∷ files) =
    extract_file inet pcap file ++ extract_pcap_flow_five_tuples inet files
