-- ===== src/Frame.antt =====
-- socket_server/replayer.py, lines 294 to 315, and socket_server/capture.py, lines 298 to 337: the VLAN
-- tag of a frame that is sent or was captured, and the internet checksum.
pub mod Tags
pub mod Sums
use socket_server.Prelude.{
  ℕ, ◌+◌, ◌-◌, ◌*◌, ◌/◌, ◌%◌, ◌^◌, Bool, not, ◌&&◌, ◌||◌, Option, none, some, List, [], ◌∷◌, ◌++◌,
  ltb, ◌==◌, if◌then◌else◌, length, take, drop,
}
use socket_server.Prelude.Bytes.{Bytes, eqb, le16, le32, pack_be16}

-- `add_or_modify_vlan`: `struct.pack("!H", vlan_id)` raises on an id that does not fit 16 bits.
pub add_or_modify_vlan : Bytes → Option ℕ → Option Bytes
add_or_modify_vlan eth_bytes none = some eth_bytes
add_or_modify_vlan eth_bytes (some vlan_id) =
    let dst = take 6 eth_bytes in
    let src = take 6 (drop 6 eth_bytes) in
    let eth_type = take 2 (drop 12 eth_bytes) in
    let payload = drop 14 eth_bytes in
    if ltb vlan_id 65536
    then some (
        if eqb eth_type (129 ∷ 0 ∷ [])
        then dst ++ (src ++ (eth_type ++ (pack_be16 vlan_id ++ drop 4 payload)))
        else dst ++ (src ++ ((129 ∷ 0 ∷ []) ++ (pack_be16 vlan_id ++ (eth_type ++ payload)))))
    else none

-- An ancillary message of `recvmsg`.
pub record Cmsg : Type 0 where
  pub cmsg_level : ℕ
  pub cmsg_type : ℕ
  pub cmsg_data : Bytes

-- The first message that is a PACKET_AUXDATA.
unfoldable pub find_auxdata : List Cmsg → Option Bytes
find_auxdata [] = none
find_auxdata (c ∷ cs) =
    if (c.cmsg_level == 263) && (c.cmsg_type == 8) then some c.cmsg_data else find_auxdata cs

-- `n & (1 << k)`, as a test.
abbrev has_bit : ℕ → ℕ → Bool
has_bit n k = n / 2 ^ k % 2 == 1

-- The tag that the kernel took out of the frame: TPID and TCI. `tpacket_auxdata` has 20 bytes; the
-- status is its first word, TCI and TPID are the half words at 16 and 18.
unfoldable pub tag_of : Bytes → Option (ℕ × ℕ)
tag_of aux =
    let tp_status = le32 aux in
    let tp_vlan_tci = le16 (drop 16 aux) in
    let tp_vlan_tpid = le16 (drop 18 aux) in
    if ltb (length aux) 20
    then none
    else if not (not (tp_vlan_tci == 0) || has_bit tp_status 4)
    then none
    else if not (tp_vlan_tpid == 0) || has_bit tp_status 6
    then some (tp_vlan_tpid, tp_vlan_tci)
    else some (0x8100, tp_vlan_tci)

-- `_restore_vlan`
pub restore_vlan : Bytes → List Cmsg → Bytes
restore_vlan frame ancdata = elim (find_auxdata ancdata) [
  | none ↦ frame
  | some aux ↦ elim (tag_of aux) [
    | none ↦ frame
    | some tag ↦
        if ltb (length frame) 12
        then frame
        else take 12 frame ++ (pack_be16 tag.0 ++ (pack_be16 tag.1 ++ drop 12 frame))
  ]
]

-- The sum of the 16-bit words; an odd byte at the end counts as the high one.
unfoldable pub sum_words : Bytes → ℕ
sum_words [] = 0
sum_words (hi ∷ []) = 256 * hi
sum_words (hi ∷ lo ∷ rest) = 256 * hi + lo + sum_words rest

-- `s = (s >> 16) + (s & 0xffff)`, then `s += s >> 16`.
unfoldable pub fold_carries : ℕ → ℕ
fold_carries s = let t = s / 65536 + s % 65536 in t + t / 65536

unfoldable pub checksum : Bytes → ℕ
checksum bytes = 65535 - fold_carries (sum_words bytes) % 65536
