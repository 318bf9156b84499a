-- ===== src/PcapFlow/Clients.antt =====
-- socket_server/pcap_flow.py, lines 114 to 161: the clients of the flows.
use socket_server.Prelude.{
  either, All-imp, ℕ, zero, suc, ◌≡◌, refl, sym, ◌∙◌, subst, ◌⊎◌, inl, inr, true, false, ◌&&◌,
  Option, none, some, [], ◌∷◌, arith, ltb, Bool-cases, length, take, drop, All,
}
use socket_server.Prelude.Bytes.{Bytes, Text, eqb, le32, eqb_refl, eqb→eq}
use socket_server.Replayer.Packet.{Inet}
use socket_server.PcapFlow.{
  Endpoint, ProtoType, tcp, udp, sctp, icmp, decide, canonical, FlowKey, Seen, Flow, Flows,
  by_handshake, by_http, signaled_client, signal, key_eqb, proto_type_eqb, new_flow, enter, see,
  read_packet, read_records, direct, flows_of,
}
use socket_server.PcapFlow.Ends.{canonical_ends, canonical_comm}

-- An entry of the table: the key is that of the flow's ends, and the client is one of them.
pub record IsEntry (entry : FlowKey × Flow) : Type 0 where
  pub key : canonical entry.1.first_src entry.1.first_dst entry.1.proto_type ≡ entry.0
  pub client : (entry.1.client ≡ entry.1.first_src) ⊎ (entry.1.client ≡ entry.1.first_dst)

proto_type_eqb→eq : (t u : ProtoType) → proto_type_eqb t u ≡ true → t ≡ u
unfolding proto_type_eqb
proto_type_eqb→eq tcp tcp h = refl
proto_type_eqb→eq udp udp h = refl
proto_type_eqb→eq sctp sctp h = refl
proto_type_eqb→eq icmp icmp h = refl
proto_type_eqb→eq _ _ h = cc

key_eqb→eq : (k j : FlowKey) → key_eqb k j ≡ true → k ≡ j
unfolding key_eqb
key_eqb→eq ((a, b), ((c, d), t)) ((a', b'), ((c', d'), t')) h =
    ground (arith, eqb→eq a a', eqb→eq b b', eqb→eq c c', eqb→eq d d', proto_type_eqb→eq t t')

-- A signal names an end of the packet.
signaled_client_end :
    (p : Seen) (client : Endpoint)
    → signaled_client p ≡ some client
    → (client ≡ p.src_tuple) ⊎ (client ≡ p.dst_tuple)
unfolding signaled_client by_handshake by_http
signaled_client_end p client h = ground arith

-- Of two ends that belong to the flow's key, each is an end of the flow.
own_end :
    (p : Seen) (flow : Flow) (client : Endpoint)
    → canonical p.src_tuple p.dst_tuple p.proto_type
      ≡ canonical flow.first_src flow.first_dst flow.proto_type
    → (client ≡ p.src_tuple) ⊎ (client ≡ p.dst_tuple)
    → (client ≡ flow.first_src) ⊎ (client ≡ flow.first_dst)
own_end p flow client e (inl s) =
    elim (canonical_ends p.src_tuple p.dst_tuple flow.first_src flow.first_dst p.proto_type
      flow.proto_type e) [ inl same ↦ inl (s ∙ same.0) | inr turned ↦ inr (s ∙ turned.0) ]
own_end p flow client e (inr d) =
    elim (canonical_ends p.src_tuple p.dst_tuple flow.first_src flow.first_dst p.proto_type
      flow.proto_type e) [ inl same ↦ inr (d ∙ same.1) | inr turned ↦ inl (d ∙ turned.1) ]

decide-IsEntry :
    (k : FlowKey) (p : Seen) (flow : Flow) (client : Option Endpoint)
    → signaled_client p ≡ client
    → canonical p.src_tuple p.dst_tuple p.proto_type ≡ k
    → IsEntry (k, flow)
    → IsEntry (k, decide flow client)
unfolding decide
decide-IsEntry k p flow none known e h = h
decide-IsEntry k p flow (some client) known e h = record {
  key = h.key;
  client = own_end p flow client (e ∙ sym h.key) (signaled_client_end p client known);
}

signal-IsEntry :
    (k : FlowKey) (p : Seen) (flow : Flow)
    → canonical p.src_tuple p.dst_tuple p.proto_type ≡ k
    → IsEntry (k, flow)
    → IsEntry (k, signal p flow)
unfolding signal
signal-IsEntry k p flow e h =
    either (λ f. IsEntry (k, f)) flow.finalized flow _ h (decide-IsEntry k p flow _ refl e h)

enter-AreEntries :
    (k : FlowKey) (p : Seen) (flows : Flows)
    → canonical p.src_tuple p.dst_tuple p.proto_type ≡ k
    → All IsEntry flows
    → All IsEntry (enter k p flows)
unfolding enter new_flow
enter-AreEntries k p [] e h =
    (signal-IsEntry k p (new_flow p) e (record { key = e; client = inl refl }), tt)
enter-AreEntries k p ((j, flow) ∷ flows) e h = elim (Bool-cases (key_eqb k j)) [
  | inl same ↦ rw same (signal-IsEntry j p flow (e ∙ key_eqb→eq k j same) h.0, h.1)
  | inr other ↦ rw other (h.0, enter-AreEntries k p flows e h.1)
]

see-AreEntries : (p : Option Seen) (flows : Flows) → All IsEntry flows → All IsEntry (see p flows)
unfolding see
see-AreEntries none flows h = h
see-AreEntries (some p) flows h = enter-AreEntries _ p flows refl h

read_records-AreEntries :
    (inet : Inet) (fuel : ℕ) (f : Bytes) (flows : Flows)
    → All IsEntry flows
    → All IsEntry (read_records inet fuel f flows)
unfolding read_records
read_records-AreEntries inet zero f flows h = h
read_records-AreEntries inet (suc fuel) f flows h =
    let body = drop 16 f in
    let incl_len = le32 (drop 8 f) in
    either (All IsEntry) (ltb (length f) 16) flows _ h (
      either (All IsEntry) (ltb (length body) incl_len) flows _ h (
        read_records-AreEntries inet fuel (drop incl_len body) _
          (see-AreEntries (read_packet inet (take incl_len body)) flows h)))

-- The result's source is the client, and its destination the other end.
abbrev pub NamesClient : Text → FlowKey × Flow → Type 0
NamesClient pcap entry =
    let result = direct pcap entry.1 in
    (result.src ≡ entry.1.client) × (canonical result.src result.dest result.proto_type ≡ entry.0)

end_eqb→eq : (a b : Endpoint) → eqb a.0 b.0 && eqb a.1 b.1 ≡ true → a ≡ b
end_eqb→eq (a, a') (b, b') h = ground (arith, eqb→eq a b, eqb→eq a' b')

end_eqb_refl : (a b : Endpoint) → a ≡ b → eqb a.0 b.0 && eqb a.1 b.1 ≡ true
end_eqb_refl a b e =
    subst (λ c. eqb a.0 c.0 && eqb a.1 c.1 ≡ true) e (rw (eqb_refl a.0, eqb_refl a.1))

-- A client that is not the first source is the first destination.
other_end :
    (client src dst : Endpoint)
    → eqb client.0 src.0 && eqb client.1 src.1 ≡ false
    → (client ≡ src) ⊎ (client ≡ dst)
    → dst ≡ client
other_end client src dst ne (inl e) = absurd (ground (arith, end_eqb_refl client src e))
other_end client src dst ne (inr e) = sym e

direct-NamesClient : (pcap : Text) (entry : FlowKey × Flow) → IsEntry entry → NamesClient pcap entry
unfolding direct
direct-NamesClient pcap (k, flow) h =
    elim (Bool-cases (eqb flow.client.0 flow.first_src.0 && eqb flow.client.1 flow.first_src.1)) [
      | inl same ↦ rw (same, direct) (sym (end_eqb→eq flow.client flow.first_src same), h.key)
      | inr other ↦
          rw (other, direct)
            (
              other_end flow.client flow.first_src flow.first_dst other h.client,
              canonical_comm flow.first_dst flow.first_src flow.proto_type ∙ h.key,
            )
    ]

-- For every flow of a file, whatever the file holds, the result names the flow's client as its source,
-- and its two ends are those of the flow.
pub flows_of-NamesClient :
    (inet : Inet) (pcap : Text) (file : Bytes) → All (NamesClient pcap) (flows_of inet file)
unfolding flows_of
flows_of-NamesClient inet pcap file =
    All-imp IsEntry (NamesClient pcap) (flows_of inet file) (direct-NamesClient pcap)
      (read_records-AreEntries inet (length file) (drop 24 file) [] tt)
