-- ===== src/PcapFlow/Locked.antt =====
-- socket_server/pcap_flow.py, lines 127 to 145: flows whose client is decided.
use socket_server.Prelude.{
  either, ℕ, zero, suc, ◌≡◌, refl, ap, ◌∙◌, inl, inr, true, Option, none, some, [], ◌∷◌, arith, ltb,
  Bool-cases, length, take, drop,
}
use socket_server.Prelude.Bytes.{Bytes, le32}
use socket_server.Replayer.Packet.{Inet}
use socket_server.PcapFlow.{
  FlowKey, Seen, Flow, Flows, signal, key_eqb, enter, see, read_packet, read_records,
}

-- The entries stay at their places, and a decided flow stays as it is.
abbrev pub Keeps : Flows → Flows → Type 0
Keeps [] after = Unit
Keeps (e ∷ es) [] = ⊥
Keeps ((k, flow) ∷ es) ((k', flow') ∷ es') =
    (k ≡ k') × ((flow.finalized ≡ true → flow' ≡ flow) × Keeps es es')

signal_finalized : (p : Seen) (flow : Flow) → flow.finalized ≡ true → signal p flow ≡ flow
unfolding signal
signal_finalized p flow h = ground (arith, h)

Keeps-refl : (flows : Flows) → Keeps flows flows
Keeps-refl [] = tt
Keeps-refl ((k, flow) ∷ es) = (refl, (λ e. refl, Keeps-refl es))

Keeps-trans : (a b c : Flows) → Keeps a b → Keeps b c → Keeps a c
Keeps-trans [] b c h k = tt
Keeps-trans (x ∷ xs) [] c h k = absurd h
Keeps-trans (x ∷ xs) (y ∷ ys) [] h k = absurd k
Keeps-trans ((j, f) ∷ xs) ((j', f') ∷ ys) ((j'', f'') ∷ zs) h k = (
  h.0 ∙ k.0,
  (
    λ e. let same = h.1.0 e in k.1.0 (ap (λ f. f.finalized) same ∙ e) ∙ same,
    Keeps-trans xs ys zs h.1.1 k.1.1,
  ),
)

enter-Keeps : (k : FlowKey) (p : Seen) (flows : Flows) → Keeps flows (enter k p flows)
unfolding enter
enter-Keeps k p [] = tt
enter-Keeps k p ((j, flow) ∷ flows) = elim (Bool-cases (key_eqb k j)) [
  | inl same ↦ rw same (refl, (signal_finalized p flow, Keeps-refl flows))
  | inr other ↦ rw other (refl, (λ e. refl, enter-Keeps k p flows))
]

see-Keeps : (p : Option Seen) (flows : Flows) → Keeps flows (see p flows)
unfolding see
see-Keeps none flows = Keeps-refl flows
see-Keeps (some p) flows = enter-Keeps _ p flows

-- However many packets follow, a flow whose client is decided keeps it, and no flow is lost.
pub read_records-Keeps :
    (inet : Inet) (fuel : ℕ) (f : Bytes) (flows : Flows)
    → Keeps flows (read_records inet fuel f flows)
unfolding read_records
read_records-Keeps inet zero f flows = Keeps-refl flows
read_records-Keeps inet (suc fuel) f flows =
    let body = drop 16 f in
    let incl_len = le32 (drop 8 f) in
    let seen = see (read_packet inet (take incl_len body)) flows in
    either (Keeps flows) (ltb (length f) 16) flows _ (Keeps-refl flows) (
      either (Keeps flows) (ltb (length body) incl_len) flows _ (Keeps-refl flows) (
        Keeps-trans flows seen _ (see-Keeps (read_packet inet (take incl_len body)) flows)
          (read_records-Keeps inet fuel (drop incl_len body) seen)))
