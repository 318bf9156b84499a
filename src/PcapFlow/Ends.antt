-- ===== src/PcapFlow/Ends.antt =====
-- socket_server/pcap_flow.py, lines 112 to 114: the keys of the flows and their ends.
use socket_server.Prelude.{◌≡◌, refl, subst, ◌⊎◌, inl, inr, true, false, [], ◌∷◌, arith, Bool-cases}
use socket_server.Prelude.Bytes.{Text, eqb, eqb_refl, eqb→eq}
use socket_server.PcapFlow.{Endpoint, ProtoType, text_leb, end_leb, canonical}

text_leb_antisym : (s t : Text) → text_leb s t ≡ true → text_leb t s ≡ true → s ≡ t
unfolding text_leb
text_leb_antisym [] [] h k = refl
text_leb_antisym [] (y ∷ ys) h k = cc
text_leb_antisym (x ∷ xs) [] h k = cc
text_leb_antisym (x ∷ xs) (y ∷ ys) h k = ground (arith, text_leb_antisym xs ys)

text_leb_total : (s t : Text) → text_leb s t ≡ false → text_leb t s ≡ true
unfolding text_leb
text_leb_total [] t h = cc
text_leb_total (x ∷ xs) [] h = refl
text_leb_total (x ∷ xs) (y ∷ ys) h = ground (arith, text_leb_total xs ys)

eqb_sym : (s t : Text) → eqb s t ≡ eqb t s
unfolding eqb
eqb_sym [] [] = refl
eqb_sym [] (y ∷ ys) = refl
eqb_sym (x ∷ xs) [] = refl
eqb_sym (x ∷ xs) (y ∷ ys) = ground (arith, eqb_sym xs ys)

end_leb_total : (a b : Endpoint) → end_leb a b ≡ false → end_leb b a ≡ true
unfolding end_leb
end_leb_total a b h =
    ground (arith, eqb_sym a.0 b.0, text_leb_total a.0 b.0, text_leb_total a.1 b.1)

equal_texts : (s t : Text) → s ≡ t → eqb s t ≡ true
equal_texts s t e = subst (λ u. eqb s u ≡ true) e (eqb_refl s)

end_leb_antisym : (a b : Endpoint) → end_leb a b ≡ true → end_leb b a ≡ true → a ≡ b
unfolding end_leb
end_leb_antisym (a0, a1) (b0, b1) h k = ground (
  arith,
  equal_texts a0 b0,
  eqb_sym a0 b0,
  eqb→eq a0 b0,
  text_leb_antisym a0 b0,
  text_leb_antisym a1 b1,
)

-- The packets of both directions belong to one flow.
pub canonical_comm : (s d : Endpoint) (t : ProtoType) → canonical s d t ≡ canonical d s t
unfolding canonical
canonical_comm s d t = elim (Bool-cases (end_leb s d)) [
  | inl le ↦ elim (Bool-cases (end_leb d s)) [
    | inl ge ↦ rw (end_leb_antisym s d le ge)
    | inr gt ↦ rw (le, gt)
  ]
  | inr gt ↦ rw (gt, end_leb_total s d gt)
]

-- Packets of one flow have the same two ends.
pub canonical_ends :
    (s d f g : Endpoint) (t u : ProtoType)
    → canonical s d t ≡ canonical f g u
    → ((s ≡ f) × (d ≡ g)) ⊎ ((s ≡ g) × (d ≡ f))
unfolding canonical
canonical_ends s d f g t u e = ground arith
