-- ===== src/Replayer/Build/Header.antt =====
-- socket_server/replayer.py, lines 345 to 406: the headers that `rewrite_v4` writes.
use socket_server.Prelude.{
  All-append, All-take, All-drop, get_or-take, ℕ, ◌*◌, ◌/◌, ◌%◌, ◌≤◌, ◌<◌, ◌≡◌, refl, sym, ap, ◌∙◌,
  Option, none, some, [], ◌∷◌, ◌++◌, arith, length, get_or, take, drop, All, length-take,
  take-append,
}
use socket_server.Prelude.Bytes.{Bytes, Text, IsByte, pack_be16}
use socket_server.Frame.{sum_words, checksum}
use socket_server.Frame.Sums.{IsEven, checksum_verifies, sum_words-bound}
use socket_server.Replayer.Packet.{Inet, ipv4, parse_ip}
use socket_server.Replayer.Build.{
  Addresses, Target, patch, at, write_address, write_checksum, header_v4, transport_v4, rewrite_v4,
  ◌>>=◌,
}

-- The first twenty bytes of a header with other addresses and the checksum `sum`.
abbrev with_addresses : Bytes → Bytes → Bytes → Bytes → Bytes
with_addresses header src dst sum = take 10 header ++ (sum ++ (src ++ (dst ++ drop 20 header)))

-- What the checksum is taken of.
abbrev unsummed : Bytes → Bytes → Bytes → Bytes
unsummed header src dst = with_addresses header src dst (0 ∷ 0 ∷ [])

-- The two addresses and the checksum, one after the other.
patched :
    (header src dst : Bytes)
    → 20 ≤ length header
    → length src ≡ 4
    → length dst ≡ 4
    → write_checksum 10 [] (patch 16 dst (patch 12 src header))
      ≡ some (with_addresses header src dst (pack_be16 (checksum (unsummed header src dst))))
unfolding write_checksum
patched
      (h0 ∷ h1 ∷ h2 ∷ h3 ∷ h4 ∷ h5 ∷ h6 ∷ h7 ∷ h8 ∷ h9 ∷ h10 ∷ h11 ∷ h12 ∷ h13 ∷ h14 ∷ h15 ∷ h16
        ∷ h17 ∷ h18 ∷ h19 ∷ rest)
      (s0 ∷ s1 ∷ s2 ∷ s3 ∷ []) (d0 ∷ d1 ∷ d2 ∷ d3 ∷ []) h k l =
    refl
patched _ _ _ h k l = absurd (omega arith)

-- What `parse_ip` reads of it.
parsed :
    (inet : Inet) (header src dst sum trans : Bytes)
    → 20 ≤ length header
    → length src ≡ 4
    → length dst ≡ 4
    → length sum ≡ 2
    → get_or header 0 0 / 16 ≡ 4
    → let new = with_addresses header src dst sum ++ trans in
      parse_ip inet new
      ≡ some (record {
        version = ipv4;
        ip_src = inet.ntoa src;
        ip_dst = inet.ntoa dst;
        proto = get_or header 9 0;
        trans = drop (get_or header 0 0 % 16 * 4) new;
      })
unfolding parse_ip
parsed inet
      (h0 ∷ h1 ∷ h2 ∷ h3 ∷ h4 ∷ h5 ∷ h6 ∷ h7 ∷ h8 ∷ h9 ∷ h10 ∷ h11 ∷ h12 ∷ h13 ∷ h14 ∷ h15 ∷ h16
        ∷ h17 ∷ h18 ∷ h19 ∷ rest)
      (s0 ∷ s1 ∷ s2 ∷ s3 ∷ []) (d0 ∷ d1 ∷ d2 ∷ d3 ∷ []) (c0 ∷ c1 ∷ []) trans h k l m four =
    ground arith
parsed inet _ _ _ _ trans h k l m four = absurd (omega arith)

first_ten : (header : Bytes) → 20 ≤ length header → IsEven (take 10 header)
first_ten
      (h0 ∷ h1 ∷ h2 ∷ h3 ∷ h4 ∷ h5 ∷ h6 ∷ h7 ∷ h8 ∷ h9 ∷ h10 ∷ h11 ∷ h12 ∷ h13 ∷ h14 ∷ h15 ∷ h16
        ∷ h17 ∷ h18 ∷ h19 ∷ rest)
      h =
    tt
first_ten _ h = absurd (omega arith)

proto_at : (header : Bytes) → 20 ≤ length header → at 9 header ≡ some (get_or header 9 0)
proto_at
      (h0 ∷ h1 ∷ h2 ∷ h3 ∷ h4 ∷ h5 ∷ h6 ∷ h7 ∷ h8 ∷ h9 ∷ h10 ∷ h11 ∷ h12 ∷ h13 ∷ h14 ∷ h15 ∷ h16
        ∷ h17 ∷ h18 ∷ h19 ∷ rest)
      h =
    refl
proto_at _ h = absurd (omega arith)

length-with_addresses :
    (header src dst sum : Bytes)
    → 20 ≤ length header
    → length src ≡ 4
    → length dst ≡ 4
    → length sum ≡ 2
    → length (with_addresses header src dst sum) ≡ length header
length-with_addresses
      (h0 ∷ h1 ∷ h2 ∷ h3 ∷ h4 ∷ h5 ∷ h6 ∷ h7 ∷ h8 ∷ h9 ∷ h10 ∷ h11 ∷ h12 ∷ h13 ∷ h14 ∷ h15 ∷ h16
        ∷ h17 ∷ h18 ∷ h19 ∷ rest)
      (s0 ∷ s1 ∷ s2 ∷ s3 ∷ []) (d0 ∷ d1 ∷ d2 ∷ d3 ∷ []) (c0 ∷ c1 ∷ []) h k l m =
    refl
length-with_addresses _ _ _ _ h k l m = absurd (omega arith)

-- A result behind the last step shows that the step gave one.
finished :
    (written : Bytes) (transport : Option Bytes) (new : Bytes)
    → (transport >>= λ trans. some (written ++ trans)) ≡ some new
    → (trans : Bytes) × (new ≡ written ++ trans)
finished written none new e = cc
finished written (some trans) new e = (trans, cc)

module _ (a : Addresses) (t : Target) (s : ℕ) (ss : Text) (d : ℕ) (ds src dst : Bytes)
    (src_given : t.modified_ip_src ≡ some (s ∷ ss)) (dst_given : t.modified_ip_dst ≡ some (d ∷ ds))
    (src_parsed : a.aton (s ∷ ss) ≡ some src) (dst_parsed : a.aton (d ∷ ds) ≡ some dst)
    (src_long : length src ≡ 4) (dst_long : length dst ≡ 4) where
  header_v4_lem :
      (header : Bytes)
      → 20 ≤ length header
      → header_v4 a t header
        ≡ some (with_addresses header src dst (pack_be16 (checksum (unsummed header src dst))))
  unfolding header_v4 write_address
  header_v4_lem header long =
      rw (src_given, src_parsed, dst_given, dst_parsed)
        (patched header src dst long src_long dst_long)

  -- A packet of IPv4 whose header is whole: if it can be rewritten, the new packet has the header with
  -- the new addresses, and behind it what `transport_v4` gives.
  rewrite_v4_lem :
      (first : ℕ) (rest new : Bytes)
      → 20 ≤ first % 16 * 4
      → first % 16 * 4 ≤ length (first ∷ rest)
      → rewrite_v4 a t (first ∷ rest) ≡ some new
      → let header = take (first % 16 * 4) (first ∷ rest) in
        (trans : Bytes) × (new
          ≡ with_addresses header src dst (pack_be16 (checksum (unsummed header src dst))) ++ trans)
  unfolding rewrite_v4
  rewrite_v4_lem first rest new whole fits built =
      let header = take (first % 16 * 4) (first ∷ rest) in
      let long : 20 ≤ length header = omega (arith, length-take (first % 16 * 4) (first ∷ rest)) in
      let written =
        with_addresses header src dst (pack_be16 (checksum (unsummed header src dst))) in
      let transport =
        transport_v4 a t (get_or header 9 0) written (drop (first % 16 * 4) (first ∷ rest)) in
      let steps : rewrite_v4 a t (first ∷ rest) ≡ (transport >>= λ trans. some (written ++ trans)) =
        rw (proto_at header long, header_v4_lem header long) in
      finished written transport new (sym steps ∙ built)

  -- The sum of a header is far below 2^32.
  unsummed-small :
      (header : Bytes)
      → All IsByte header
      → All IsByte src
      → All IsByte dst
      → 20 ≤ length header
      → length header ≤ 60
      → sum_words (unsummed header src dst) < 4294967296
  unsummed-small header hb sb db long short = omega (
    arith,
    sum_words-bound (unsummed header src dst) (
        All-append IsByte (take 10 header) _ (All-take IsByte 10 header hb) (
          omega arith,
          (
            omega arith,
            All-append IsByte src _ sb (All-append IsByte dst _ db (All-drop IsByte 20 header hb)),
          ),
        )),
    length-with_addresses header src dst (0 ∷ 0 ∷ []) long src_long dst_long refl,
  )

  -- A packet of IPv4 (bytes, the header of at least 20 of them whole) for which both new addresses
  -- are given and parsed to four bytes, if it can be rewritten: `parse_ip` reads the new packet
  -- with those addresses, with the protocol that it had and with what stands behind its header,
  -- and the checksum of the new header is the one that a receiver accepts.
  pub rewrite_v4-parsed :
      (inet : Inet) (first : ℕ) (rest new : Bytes)
      → All IsByte (first ∷ rest)
      → All IsByte src
      → All IsByte dst
      → first / 16 ≡ 4
      → 20 ≤ first % 16 * 4
      → first % 16 * 4 ≤ length (first ∷ rest)
      → rewrite_v4 a t (first ∷ rest) ≡ some new
      → (parse_ip inet new
          ≡ some (record {
            version = ipv4;
            ip_src = inet.ntoa src;
            ip_dst = inet.ntoa dst;
            proto = get_or (first ∷ rest) 9 0;
            trans = drop (first % 16 * 4) new;
          }))
        × (checksum (take (first % 16 * 4) new) ≡ 0)
  rewrite_v4-parsed inet first rest new pb sb db four whole fits built =
      let ihl = first % 16 * 4 in
      let header = take ihl (first ∷ rest) in
      let size : length header ≡ ihl = omega (arith, length-take ihl (first ∷ rest)) in
      let sum = pack_be16 (checksum (unsummed header src dst)) in
      let (trans, same) = rewrite_v4_lem first rest new whole fits built in
      let head : get_or header 0 0 ≡ first = get_or-take 0 ihl (first ∷ rest) 0 (omega arith) in
      let ninth : get_or header 9 0 ≡ get_or (first ∷ rest) 9 0 =
        get_or-take 9 ihl (first ∷ rest) 0 (omega arith) in
      let written : length (with_addresses header src dst sum) ≡ ihl =
        length-with_addresses header src dst sum (omega arith) src_long dst_long refl ∙ size in
      let small =
        unsummed-small header (All-take IsByte ihl (first ∷ rest) pb) sb db (omega arith)
          (omega arith) in
      let right =
        checksum_verifies (take 10 header) (src ++ (dst ++ drop 20 header))
          (first_ten header (omega arith)) small in
      let front : take ihl new ≡ with_addresses header src dst sum =
        ap (take ihl) same ∙ take-append ihl (with_addresses header src dst sum) trans written in
      let read =
        parsed inet header src dst sum trans (omega arith) src_long dst_long refl
          (ap (λ b. b / 16) head ∙ four) in
      (rw same (read ∙ rw (head, ninth)), ap checksum front ∙ right)
