-- ===== src/Capture/Sort.antt =====
-- socket_server/capture.py, lines 624 to 684: `_sort_pcap_by_timestamp` as a function of the file's
-- bytes. It rewrites the file in one `os.replace`, so the file holds the old or the new bytes.
pub mod Order
pub mod Format
pub mod File
pub mod Built
use socket_server.Prelude.{
  ℕ, zero, suc, ◌+◌, Bool, true, false, Option, none, some, List, [], ◌∷◌, ◌++◌, ltb, leb, ◌==◌,
  if◌then◌else◌, length, take, drop,
}
use socket_server.Prelude.Bytes.{Bytes, le32, be32, pack_le32, pack_be32}

-- One record: the time stamp, its place in the file, and the captured bytes.
pub record Packet : Type 0 where
  pub ts_sec : ℕ
  pub ts_frac : ℕ
  pub idx : ℕ
  pub captured : Bytes

pub data Endian : Type 0 where
  little big : Endian

abbrev pub unpack_word : Endian → Bytes → ℕ
unpack_word little b = le32 b
unpack_word big b = be32 b

abbrev pub pack_word : Endian → ℕ → Bytes
pack_word little n = pack_le32 n
pack_word big n = pack_be32 n

-- The byte order that the magic number of the global header shows, for microseconds and for
-- nanoseconds; any other file is left alone.
unfoldable pub endian_of : ℕ → Option Endian
endian_of magic =
    if magic == 0xA1B2C3D4
    then some little
    else if magic == 0xD4C3B2A1
    then some big
    else if magic == 0xA1B23C4D
    then some little
    else if magic == 0x4D3CB2A1
    then some big
    else none

-- The loop that reads the records. Each round takes 16 bytes at least, so the length of the file is
-- enough fuel. A record that is cut off ends the list.
pub read_records : ℕ → Endian → ℕ → Bytes → List Packet
read_records zero e idx f = []
read_records (suc fuel) e idx f =
    let incl_len = unpack_word e (drop 8 f) in
    let body = drop 16 f in
    let found : Packet = record {
      ts_sec = unpack_word e f;
      ts_frac = unpack_word e (drop 4 f);
      idx = idx;
      captured = take incl_len body;
    } in
    let rest = read_records fuel e (idx + 1) (drop incl_len body) in
    if ltb (length f) 16 then [] else if ltb (length body) incl_len then [] else found ∷ rest

-- `(r[0], r[1], r[2])` of one record is at most that of the other.
pub key_leb : Packet → Packet → Bool
key_leb p q =
    if ltb p.ts_sec q.ts_sec
    then true
    else if ltb q.ts_sec p.ts_sec
    then false
    else if ltb p.ts_frac q.ts_frac
    then true
    else if ltb q.ts_frac p.ts_frac
    then false
    else leb p.idx q.idx

-- `records.sort(key=…)`
pub insert : Packet → List Packet → List Packet
insert p [] = p ∷ []
insert p (q ∷ qs) = if key_leb p q then p ∷ q ∷ qs else q ∷ insert p qs

pub sort : List Packet → List Packet
sort [] = []
sort (p ∷ ps) = insert p (sort ps)

-- A record as it is written: both lengths are that of the captured bytes.
abbrev pub write_record : Endian → Packet → Bytes
write_record e p =
    pack_word e p.ts_sec
    ++ (pack_word e p.ts_frac
        ++ (pack_word e (length p.captured) ++ (pack_word e (length p.captured) ++ p.captured)))

unfoldable pub write_records : Endian → List Packet → Bytes
write_records e [] = []
write_records e (p ∷ ps) = write_record e p ++ write_records e ps

unfoldable pub sort_records : Endian → Bytes → Bytes
sort_records e f =
    take 24 f ++ write_records e (sort (read_records (length (drop 24 f)) e 0 (drop 24 f)))

-- The whole function: the bytes of the file afterwards.
pub sort_pcap : Bytes → Bytes
sort_pcap f =
    if ltb (length f) 24
    then f
    else elim (endian_of (le32 f)) [ none ↦ f | some e ↦ sort_records e f ]
