-- ===== src/Replayer/Flow/Keys.antt =====
-- Five-tuples as keys of the flow table: equality, reversal, and the table's lookups.
use socket_server.Prelude.{
  ℕ, ◌≡◌, refl, sym, inl, inr, true, Option, none, some, [], ◌∷◌, arith, if◌then◌else◌, ==_refl,
  Bool-cases,
}
use socket_server.Prelude.Bytes.{eqb_refl, eqb→eq}
use socket_server.Replayer.Packet.{FiveTuple, Protocol, tcp, udp, other}
use socket_server.Replayer.Flow.{
  FlowInfo, FlowTable, port_eqb, proto_eqb, key_eqb, find_flow, add_flow, reversed,
}

port_eqb_refl : (p : Option ℕ) → port_eqb p p ≡ true
unfolding port_eqb
port_eqb_refl none = refl
port_eqb_refl (some n) = ==_refl n

port_eqb→eq : (p q : Option ℕ) → port_eqb p q ≡ true → p ≡ q
unfolding port_eqb
port_eqb→eq none none h = refl
port_eqb→eq none (some n) h = cc
port_eqb→eq (some m) none h = cc
port_eqb→eq (some m) (some n) h = ground arith

proto_eqb_refl : (p : Protocol) → proto_eqb p p ≡ true
unfolding proto_eqb
proto_eqb_refl tcp = refl
proto_eqb_refl udp = refl
proto_eqb_refl other = refl

proto_eqb→eq : (p q : Protocol) → proto_eqb p q ≡ true → p ≡ q
unfolding proto_eqb
proto_eqb→eq p q h = ground arith

pub key_eqb_refl : (k : FiveTuple) → key_eqb k k ≡ true
unfolding key_eqb
key_eqb_refl k = rw (
  eqb_refl k.mac_src,
  eqb_refl k.mac_dst,
  eqb_refl k.ip_src,
  eqb_refl k.ip_dst,
  port_eqb_refl k.sport,
  port_eqb_refl k.dport,
  proto_eqb_refl k.proto,
)

pub key_eqb→eq : (k j : FiveTuple) → key_eqb k j ≡ true → k ≡ j
unfolding key_eqb
key_eqb→eq k j h = ground (
  arith,
  eqb→eq k.mac_src j.mac_src,
  eqb→eq k.mac_dst j.mac_dst,
  eqb→eq k.ip_src j.ip_src,
  eqb→eq k.ip_dst j.ip_dst,
  port_eqb→eq k.sport j.sport,
  port_eqb→eq k.dport j.dport,
  proto_eqb→eq k.proto j.proto,
)

reversed-reversed : (k : FiveTuple) → reversed (reversed k) ≡ k
unfolding reversed
reversed-reversed k = refl

key_other : (i k j : FiveTuple) → key_eqb i j ≡ true → key_eqb i k ≡ true → key_eqb k j ≡ true
key_other i k j p q = rw (sym (key_eqb→eq i k q)) p

key_subst : (i k j : FiveTuple) → key_eqb k j ≡ true → key_eqb i j ≡ key_eqb i k
key_subst i k j h = rw (key_eqb→eq k j h)

pub find-add_flow :
    (i k : FiveTuple) (f : FlowInfo) (t : FlowTable)
    → find_flow i (add_flow k f t) ≡ (if key_eqb i k then some f else find_flow i t)
unfolding find_flow add_flow
find-add_flow i k f [] = refl
find-add_flow i k f ((j, g) ∷ t) = elim (Bool-cases (key_eqb k j)) [
  | inl same ↦ rw same (ground (arith, key_subst i k j same))
  | inr new ↦ rw new (ground (arith, find-add_flow i k f t, key_other i k j))
]
