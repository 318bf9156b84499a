-- ===== src/Replayer/Build.antt =====
-- socket_server/replayer.py, lines 317 to 569: `build_modified_packet`, which writes other addresses and
-- ports into a frame, in the same or in the other version of IP, and computes the checksums anew.
pub mod Header
pub mod Kept
pub mod Run
use socket_server.Prelude.{
  ℕ, ◌+◌, ◌*◌, ◌/◌, ◌%◌, Bool, true, false, ◌&&◌, ◌||◌, Option, none, some, [], ◌∷◌, ◌++◌, map, ltb,
  ◌==◌, if◌then◌else◌, length, get_elem?, take, drop, replicate,
}
use socket_server.Prelude.Bytes.{Bytes, Text, be16, pack_be16, pack_be32}
use mathlib.Core.Option
use socket_server.Frame.{checksum}

-- `socket.inet_aton` and `socket.inet_pton(AF_INET6, …)`: none where they raise.
pub record Addresses : Type 0 where
  pub aton : Text → Option Bytes
  pub pton : Text → Option Bytes

-- What `modify_packet` leaves in the `FlowInfo` for `build_modified_packet`.
pub record Target : Type 0 where
  pub modified_ip_src : Option Text
  pub modified_ip_dst : Option Text
  pub modified_sport : Option ℕ
  pub modified_dport : Option ℕ

-- An exception is none; `build_modified_packet` catches it and gives the frame back as it came.
infixl 5 ◌>>=◌
abbrev pub ◌>>=◌ : {A B : Type 0} → Option A → (A → Option B) → Option B
none >>= f = none
some a >>= f = f a

-- `b[i:j] = new` on a bytearray, with j = i + the length of `new`.
abbrev pub patch : ℕ → Bytes → Bytes → Bytes
patch i new b = take i b ++ (new ++ drop (i + length new) b)

-- `b[i]`, which raises past the end.
abbrev pub at : ℕ → Bytes → Option ℕ
at i b = get_elem? b i

-- `struct.pack("!H", n)`
pub pack_h : ℕ → Option Bytes
pack_h n = if ltb n 65536 then some (pack_be16 n) else none

-- `struct.pack("!I", n)`
pack_i : ℕ → Option Bytes
pack_i n = if ltb n 4294967296 then some (pack_be32 n) else none

-- The protocols with ports: TCP, UDP and SCTP.
abbrev has_ports : ℕ → Bool
has_ports proto = (proto == 6) || ((proto == 17) || (proto == 132))

-- `x and f(x)` as a test.
pub accepted : (Text → Option Bytes) → Option Text → Bool
accepted parse (some (c ∷ cs)) = elim (parse (c ∷ cs)) [ none ↦ false | some _ ↦ true ]
accepted parse _ = false

-- `if target: header[i:…] = parse(target)`
pub write_address : (Text → Option Bytes) → ℕ → Option Text → Bytes → Option Bytes
write_address parse i (some (c ∷ cs)) header = do
  address ← parse (c ∷ cs)
  some (patch i address header)
write_address parse i _ header = some header

-- `header[i:…] = parse(target)`, which raises on None.
write_forced : (Text → Option Bytes) → ℕ → Option Text → Bytes → Option Bytes
write_forced parse i (some target) header = do address ← parse target; some (patch i address header)
write_forced parse i none header = none

pub write_port : ℕ → Option ℕ → Bytes → Option Bytes
write_port i none header = some header
write_port i (some port) header = do word ← pack_h port; some (patch i word header)

-- The ports, where they are given.
pub write_ports : Target → Bytes → Option Bytes
write_ports t trans = do
  h ← write_port 0 t.modified_sport (take 4 trans)
  trans_header ← write_port 2 t.modified_dport h
  some (trans_header ++ drop 4 trans)

-- `modified or old`, for both ports, written into the first four bytes.
abbrev or_old : Option ℕ → ℕ → ℕ
or_old none old = old
or_old (some port) old = if port == 0 then old else port

translate_ports : Target → Bytes → Option Bytes
translate_ports t trans = if ltb (length trans) 4 then none else (do
  sport ← pack_h (or_old t.modified_sport (be16 trans))
  dport ← pack_h (or_old t.modified_dport (be16 (drop 2 trans)))
  some (patch 2 dport (patch 0 sport (take 4 trans)) ++ drop 4 trans))

-- The field at `i` is set to zero, and then to the checksum of `prefix` and the whole.
pub write_checksum : ℕ → Bytes → Bytes → Option Bytes
write_checksum i prefix b =
    let zeroed = patch i (0 ∷ 0 ∷ []) b in
    some (patch i (pack_be16 (checksum (prefix ++ zeroed))) zeroed)

-- The checksum of TCP or UDP; SCTP is left as it is.
pub transport_checksum : ℕ → Bytes → Bytes → Option Bytes
transport_checksum proto pseudo trans =
    if proto == 6
    then write_checksum 16 pseudo trans
    else if proto == 17
    then write_checksum 6 pseudo trans
    else some trans

pub pseudo_v4 : ℕ → Bytes → ℕ → Option Bytes
pseudo_v4 proto header size = do
  word ← pack_h size
  some (take 8 (drop 12 header) ++ (0 ∷ proto ∷ word))

pseudo_v6 : ℕ → Bytes → ℕ → Option Bytes
pseudo_v6 proto header size = do
  word ← pack_i size
  some (take 16 (drop 8 header) ++ (take 16 (drop 24 header) ++ (word ++ (0 ∷ 0 ∷ 0 ∷ proto ∷ []))))

module _ (a : Addresses) (t : Target) where
  open a use {aton, pton}
  open t use {modified_ip_src, modified_ip_dst}

  target_is_ipv4 : Bool
  target_is_ipv4 = accepted aton modified_ip_src || accepted aton modified_ip_dst

  target_is_ipv6 : Bool
  target_is_ipv6 = accepted pton modified_ip_src || accepted pton modified_ip_dst

  -- The transport part behind the header of IPv4: ports and checksum.
  pub transport_v4 : ℕ → Bytes → Bytes → Option Bytes
  transport_v4 proto ip_header ip_payload =
      if has_ports proto
      then (do
        trans_full ← write_ports t ip_payload
        pseudo ← pseudo_v4 proto ip_header (length trans_full)
        transport_checksum proto pseudo trans_full)
      else if proto == 1
      then write_checksum 2 [] ip_payload
      else some ip_payload

  pub header_v4 : Bytes → Option Bytes
  header_v4 ip_header = do
    with_src ← write_address aton 12 modified_ip_src ip_header
    with_dst ← write_address aton 16 modified_ip_dst with_src
    write_checksum 10 [] with_dst

  pub rewrite_v4 : Bytes → Option Bytes
  rewrite_v4 payload = do
    first ← at 0 payload
    let ihl = first % 16 * 4
    proto ← at 9 (take ihl payload)
    ip_header ← header_v4 (take ihl payload)
    trans_full ← transport_v4 proto ip_header (drop ihl payload)
    some (ip_header ++ trans_full)

  transport_v6 : ℕ → Bytes → Bytes → Option Bytes
  transport_v6 next_header ip6_header ip6_payload =
      if has_ports next_header
      then (do
        trans_full ← write_ports t ip6_payload
        pseudo ← pseudo_v6 next_header ip6_header (length trans_full)
        transport_checksum next_header pseudo trans_full)
      else if next_header == 58
      then write_checksum 2 [] ip6_payload
      else some ip6_payload

  rewrite_v6 : Bytes → Option Bytes
  rewrite_v6 payload = do
    next_header ← at 6 (take 40 payload)
    with_src ← write_address pton 8 modified_ip_src (take 40 payload)
    ip6_header ← write_address pton 24 modified_ip_dst with_src
    trans_full ← transport_v6 next_header ip6_header (drop 40 payload)
    some (ip6_header ++ trans_full)

  -- IPv6 to IPv4: none of the outer option is an exception, none of the inner one a frame that is
  -- given back.
  translated_v4 : ℕ → Bytes → Option Bytes
  translated_v4 next_header ip6_payload = do
    total_length ← pack_h (20 + length ip6_payload)
    let fresh = patch 2 total_length (69 ∷ replicate 7 0 ++ (64 ∷ next_header ∷ replicate 10 0))
    with_src ← write_forced aton 12 modified_ip_src fresh
    with_dst ← write_forced aton 16 modified_ip_dst with_src
    write_checksum 10 [] with_dst

  v6_to_v4 : Bytes → Option (Option Bytes)
  v6_to_v4 payload = do
    next_header ← at 6 (take 40 payload)
    let ip6_payload = drop 40 payload
    (if has_ports next_header
        then (do
          trans ← translate_ports t ip6_payload
          ipv4_header ← translated_v4 next_header ip6_payload
          pseudo ← pseudo_v4 next_header ipv4_header (length trans)
          trans_full ← transport_checksum next_header pseudo trans
          some (some (ipv4_header ++ trans_full)))
        else if next_header == 58
        then (do
          ipv4_header ← translated_v4 next_header ip6_payload
          some (some (ipv4_header ++ ip6_payload)))
        else some none)

  translated_v6 : ℕ → Bytes → Option Bytes
  translated_v6 proto ip_payload = do
    size ← pack_h (length ip_payload)
    let fresh = patch 4 size (96 ∷ replicate 5 0 ++ (proto ∷ 64 ∷ replicate 32 0))
    with_src ← write_forced pton 8 modified_ip_src fresh
    write_forced pton 24 modified_ip_dst with_src

  v4_to_v6 : Bytes → Option (Option Bytes)
  v4_to_v6 payload = do
    proto ← at 9 (take 20 payload)
    let ip_payload = drop 20 payload
    (if has_ports proto
        then (do
          trans ← translate_ports t ip_payload
          ipv6_header ← translated_v6 proto ip_payload
          pseudo ← pseudo_v6 proto ipv6_header (length trans)
          trans_full ← transport_checksum proto pseudo trans
          some (some (ipv6_header ++ trans_full)))
        else if proto == 1
        then (do
          ipv6_header ← translated_v6 proto ip_payload
          some (some (ipv6_header ++ ip_payload)))
        else some none)

  -- The new payload of the frame, by its version and the target's.
  pub new_payload : Bytes → Option (Option Bytes)
  new_payload payload = do
    first ← at 0 payload
    let version = first / 16
    (if (version == 4) && target_is_ipv4
        then Option.map some (rewrite_v4 payload)
        else if (version == 6) && target_is_ipv6
        then Option.map some (rewrite_v6 payload)
        else if (version == 6) && target_is_ipv4
        then v6_to_v4 payload
        else if (version == 4) && target_is_ipv6
        then v4_to_v6 payload
        else some none)

  pub build_modified_packet : Bytes → Bytes
  build_modified_packet eth_bytes = elim (new_payload (drop 14 eth_bytes)) [
    | some (some payload) ↦ take 14 eth_bytes ++ payload
    | some none ↦ eth_bytes
    | none ↦ eth_bytes
  ]
