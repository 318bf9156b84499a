-- ===== src/Replayer/Build/Kept.antt =====
-- socket_server/replayer.py, lines 564 to 569: the payloads that are given back as they came.
use socket_server.Prelude.{
  ◌/◌, ◌<◌, ◌≡◌, refl, ◌⊎◌, inl, inr, false, none, some, [], ◌∷◌, arith, ◌==◌, get_or, drop,
}
use socket_server.Prelude.Bytes.{Bytes}
use socket_server.Replayer.Build.{Addresses, Target, new_payload, build_modified_packet}

new_payload_low :
    (a : Addresses) (t : Target) (payload : Bytes)
    → get_or payload 0 0 < 64
    → (new_payload a t payload ≡ none) ⊎ (new_payload a t payload ≡ some none)
unfolding new_payload
new_payload_low a t [] low = inl refl
new_payload_low a t (b ∷ bs) low =
    let four : (b / 16 == 4) ≡ false = ground arith in
    let six : (b / 16 == 6) ≡ false = ground arith in inr (rw (four, six))

pub build_modified_packet-kept :
    (a : Addresses) (t : Target) (frame : Bytes)
    → get_or (drop 14 frame) 0 0 < 64
    → build_modified_packet a t frame ≡ frame
unfolding build_modified_packet
build_modified_packet-kept a t frame low = elim (new_payload_low a t (drop 14 frame) low) [
  | inl raised ↦ rw (raised, build_modified_packet)
  | inr same ↦ rw (same, build_modified_packet)
]
