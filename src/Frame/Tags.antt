-- ===== src/Frame/Tags.antt =====
-- socket_server/replayer.py, lines 294 to 307, and socket_server/capture.py, lines 298 to 337: frames whose
-- tag is added, changed or restored, as the parsers see them.
use socket_server.Prelude.{
  refl, ap, ℕ, ◌+◌, inl, inr, Option-cases, either, length-append, length-take, length-drop, ◌%◌,
  ◌≤◌, ◌<◌, ◌≡◌, true, false, some, List, [], ◌∷◌, ◌++◌, arith, ltb, length, take, drop,
}
use socket_server.Prelude.Bytes.{Bytes, eqb, eqb→eq, be16, pack_be16}
use socket_server.Replayer.Packet.{parse_ethernet, parse_vlan}
use socket_server.Frame.{add_or_modify_vlan, Cmsg, find_auxdata, tag_of, restore_vlan}

pack-be16 : (n : ℕ) (s : Bytes) → n < 65536 → be16 (pack_be16 n ++ s) ≡ n
pack-be16 n s h = omega arith

-- The tag, with an id below 4096, that is put into an untagged frame of at least 14 bytes is read
-- back: its id, the type and the payload of the frame, and the addresses are unchanged.
pub parse-add_or_modify_vlan :
    (frame : Bytes) (vlan_id : ℕ)
    → 14 ≤ length frame
    → vlan_id < 4096
    → eqb (take 2 (drop 12 frame)) (129 ∷ 0 ∷ []) ≡ false
    → (tagged : Bytes) × (add_or_modify_vlan frame (some vlan_id) ≡ some tagged)
      × (parse_ethernet tagged
          ≡ some (record {
            dst = take 6 frame;
            src = take 6 (drop 6 frame);
            eth_type = 0x8100;
            payload = drop 14 tagged;
          }))
      × (parse_vlan (drop 14 tagged)
          ≡ some (record {
            vlan_id = vlan_id;
            eth_type = be16 (drop 12 frame);
            payload = drop 14 frame;
          }))
unfolding add_or_modify_vlan parse_ethernet parse_vlan
parse-add_or_modify_vlan
      (d0 ∷ d1 ∷ d2 ∷ d3 ∷ d4 ∷ d5 ∷ s0 ∷ s1 ∷ s2 ∷ s3 ∷ s4 ∷ s5 ∷ t0 ∷ t1 ∷ rest) v long small
      untagged =
    let fits : ltb v 65536 ≡ true = ground arith in
    let id : be16 (pack_be16 v ++ (t0 ∷ t1 ∷ rest)) % 4096 ≡ v = omega arith in
    let enough : ltb
          (length (
            d0
            ∷ d1
            ∷ d2
            ∷ d3
            ∷ d4
            ∷ d5
            ∷ s0
            ∷ s1
            ∷ s2
            ∷ s3
            ∷ s4
            ∷ s5
            ∷ 129
            ∷ 0
            ∷ (pack_be16 v ++ (t0 ∷ t1 ∷ rest))))
          14
        ≡ false =
      ground arith in
    let enough' : ltb (length (pack_be16 v ++ (t0 ∷ t1 ∷ rest))) 4 ≡ false = ground arith in
    (
      d0
          ∷ d1
          ∷ d2
          ∷ d3
          ∷ d4
          ∷ d5
          ∷ s0
          ∷ s1
          ∷ s2
          ∷ s3
          ∷ s4
          ∷ s5
          ∷ 129
          ∷ 0
          ∷ (pack_be16 v ++ (t0 ∷ t1 ∷ rest)),
      rw (fits, untagged),
      rw enough,
      rw (enough', id),
    )
parse-add_or_modify_vlan _ v long small untagged = absurd (omega arith)

-- A tag that the kernel took out of a captured frame of at least 14 bytes is put back: the parsers
-- read the frame that is stored with the TPID for its type, the id of the TCI, and then the type
-- and the payload of the frame as it came.
pub parse-restore_vlan :
    (frame : Bytes) (ancdata : List Cmsg) (aux : Bytes) (tpid tci : ℕ)
    → 14 ≤ length frame
    → find_auxdata ancdata ≡ some aux
    → tag_of aux ≡ some (tpid, tci)
    → tpid < 65536
    → tci < 65536
    → (parse_ethernet (restore_vlan frame ancdata)
        ≡ some (record {
          dst = take 6 frame;
          src = take 6 (drop 6 frame);
          eth_type = tpid;
          payload = drop 14 (restore_vlan frame ancdata);
        }))
      × (parse_vlan (drop 14 (restore_vlan frame ancdata))
          ≡ some (record {
            vlan_id = tci % 4096;
            eth_type = be16 (drop 12 frame);
            payload = drop 14 frame;
          }))
unfolding restore_vlan parse_ethernet parse_vlan
parse-restore_vlan (d0 ∷ d1 ∷ d2 ∷ d3 ∷ d4 ∷ d5 ∷ s0 ∷ s1 ∷ s2 ∷ s3 ∷ s4 ∷ s5 ∷ t0 ∷ t1 ∷ rest) anc
      aux tpid tci long found tagged ht hc =
    let whole : ltb
          (length (d0 ∷ d1 ∷ d2 ∷ d3 ∷ d4 ∷ d5 ∷ s0 ∷ s1 ∷ s2 ∷ s3 ∷ s4 ∷ s5 ∷ t0 ∷ t1 ∷ rest)) 12
        ≡ false =
      ground arith in
    let ty : be16 (pack_be16 tpid ++ (pack_be16 tci ++ (t0 ∷ t1 ∷ rest))) ≡ tpid = omega arith in
    let id : be16 (pack_be16 tci ++ (t0 ∷ t1 ∷ rest)) ≡ tci = omega arith in
    let enough : ltb
          (length (
            d0
            ∷ d1
            ∷ d2
            ∷ d3
            ∷ d4
            ∷ d5
            ∷ s0
            ∷ s1
            ∷ s2
            ∷ s3
            ∷ s4
            ∷ s5
            ∷ (pack_be16 tpid ++ (pack_be16 tci ++ (t0 ∷ t1 ∷ rest)))))
          14
        ≡ false =
      ground arith in
    let enough' : ltb (length (pack_be16 tci ++ (t0 ∷ t1 ∷ rest))) 4 ≡ false = ground arith in
    (
      rw (found, restore_vlan, tagged, restore_vlan, whole, enough, ty),
      rw (found, restore_vlan, tagged, restore_vlan, whole, enough', id),
    )
parse-restore_vlan _ anc aux tpid tci long found tagged ht hc = absurd (omega arith)

-- A frame of at least 20 bytes that has a tag gets another id below 4096: the parsers read the addresses
-- as they were and the new id, but the old type of what the tag carries is gone. What is read for the
-- type are the first two bytes of the payload, and for the payload what follows them.
pub parse-add_or_modify_vlan_retags :
    (frame : Bytes) (vlan_id : ℕ)
    → 20 ≤ length frame
    → vlan_id < 4096
    → eqb (take 2 (drop 12 frame)) (129 ∷ 0 ∷ []) ≡ true
    → (tagged : Bytes) × (add_or_modify_vlan frame (some vlan_id) ≡ some tagged)
      × (parse_ethernet tagged
          ≡ some (record {
            dst = take 6 frame;
            src = take 6 (drop 6 frame);
            eth_type = 0x8100;
            payload = drop 14 tagged;
          }))
      × (parse_vlan (drop 14 tagged)
          ≡ some (record {
            vlan_id = vlan_id;
            eth_type = be16 (drop 18 frame);
            payload = drop 20 frame;
          }))
unfolding add_or_modify_vlan parse_ethernet parse_vlan
parse-add_or_modify_vlan_retags
      (d0 ∷ d1 ∷ d2 ∷ d3 ∷ d4 ∷ d5 ∷ s0 ∷ s1 ∷ s2 ∷ s3 ∷ s4 ∷ s5 ∷ t0 ∷ t1 ∷ a0 ∷ a1 ∷ b0 ∷ b1
        ∷ rest)
      v long small tagged =
    let fits : ltb v 65536 ≡ true = ground arith in
    let id : be16 (pack_be16 v ++ rest) % 4096 ≡ v = omega arith in
    let type : be16 (t0 ∷ t1 ∷ (pack_be16 v ++ rest)) ≡ 0x8100 =
      ap be16 (eqb→eq (t0 ∷ t1 ∷ []) (129 ∷ 0 ∷ []) tagged) in
    let enough : ltb
          (length (
            d0
            ∷ d1
            ∷ d2
            ∷ d3
            ∷ d4
            ∷ d5
            ∷ s0
            ∷ s1
            ∷ s2
            ∷ s3
            ∷ s4
            ∷ s5
            ∷ t0
            ∷ t1
            ∷ (pack_be16 v ++ rest)))
          14
        ≡ false =
      ground arith in
    let enough' : ltb (length (pack_be16 v ++ rest)) 4 ≡ false = ground arith in
    (
      d0 ∷ d1 ∷ d2 ∷ d3 ∷ d4 ∷ d5 ∷ s0 ∷ s1 ∷ s2 ∷ s3 ∷ s4 ∷ s5 ∷ t0 ∷ t1 ∷ (pack_be16 v ++ rest),
      rw (fits, tagged) refl,
      rw (type, enough),
      rw (enough', id),
    )
parse-add_or_modify_vlan_retags _ v long small tagged = absurd (omega arith)

-- A frame grows by one tag at most.
pub length-restore_vlan :
    (frame : Bytes) (ancdata : List Cmsg) → length (restore_vlan frame ancdata) ≤ length frame + 4
unfolding restore_vlan
length-restore_vlan frame ancdata = elim (Option-cases (find_auxdata ancdata)) [
  | inl missing ↦ rw (missing, length) (omega arith)
  | inr (aux, found) ↦ elim (Option-cases (tag_of aux)) [
    | inl untagged ↦ rw (found, length, untagged, length) (omega arith)
    | inr (tag, tagged) ↦
        rw (found, length, tagged, length)
          (either (λ (b : Bytes). length b ≤ length frame + 4) (ltb (length frame) 12) _ _
            (omega arith)
            (omega (
              arith,
              length-append (take 12 frame) (pack_be16 tag.0 ++ (pack_be16 tag.1 ++ drop 12 frame)),
              length-take 12 frame,
              length-drop 12 frame,
            )))
  ]
]
