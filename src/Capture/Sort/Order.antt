-- ===== src/Capture/Sort/Order.antt =====
-- socket_server/capture.py, line 671: the sort of the records.
use socket_server.Prelude.{
  ◌≡◌, ◌<◌, ◌≤◌, ◌⊎◌, refl, ap, ◌∙◌, inl, inr, true, false, List, [], ◌∷◌, arith, Bool-cases, All,
}
use mathlib.Core.List.{Perm}
use mathlib.Core.List.Perm
use socket_server.Capture.Sort.{Packet, key_leb, insert, sort}

-- One stamp is before the other, by the seconds and then by the fractions; or they are equal, and so is
-- the order of the places.
abbrev pub KeyLe : Packet → Packet → Type 0
KeyLe p q =
    (p.ts_sec < q.ts_sec)
    ⊎ ((p.ts_sec ≡ q.ts_sec)
        × ((p.ts_frac < q.ts_frac) ⊎ ((p.ts_frac ≡ q.ts_frac) × (p.idx ≤ q.idx))))

key_leb-KeyLe : (p q : Packet) → key_leb p q ≡ true → KeyLe p q
unfolding key_leb
key_leb-KeyLe p q h = ground arith

pub KeyLe-key_leb : (p q : Packet) → KeyLe p q → key_leb p q ≡ true
unfolding key_leb
KeyLe-key_leb p q h = ground arith

-- Every record has a key at most that of all behind it.
abbrev pub IsSorted : List Packet → Type 0
IsSorted [] = Unit
IsSorted (p ∷ ps) = All (KeyLe p) ps × IsSorted ps

KeyLe-trans : (p q r : Packet) → KeyLe p q → KeyLe q r → KeyLe p r
KeyLe-trans p q r h k = ground arith

key_leb_total : (p q : Packet) → key_leb p q ≡ false → KeyLe q p
unfolding key_leb
key_leb_total p q h = ground arith

All-trans : (p q : Packet) (ps : List Packet) → KeyLe p q → All (KeyLe q) ps → All (KeyLe p) ps
All-trans p q [] h a = tt
All-trans p q (r ∷ rs) h a = (KeyLe-trans p q r h a.0, All-trans p q rs h a.1)

All-insert :
    (P : Packet → Type 0) (p : Packet) (ps : List Packet) → P p → All P ps → All P (insert p ps)
unfolding insert
All-insert P p [] h a = (h, tt)
All-insert P p (q ∷ qs) h a = ground (arith, All-insert P p qs h a.1)

pub All-sort : (P : Packet → Type 0) (ps : List Packet) → All P ps → All P (sort ps)
unfolding sort
All-sort P [] a = tt
All-sort P (p ∷ ps) a = All-insert P p (sort ps) a.0 (All-sort P ps a.1)

insert-IsSorted : (p : Packet) (ps : List Packet) → IsSorted ps → IsSorted (insert p ps)
unfolding insert
insert-IsSorted p [] s = (tt, tt)
insert-IsSorted p (q ∷ qs) s = elim (Bool-cases (key_leb p q)) [
  | inl le ↦ let before = key_leb-KeyLe p q le in rw le ((before, All-trans p q qs before s.0), s)
  | inr gt ↦ rw gt (All-insert (KeyLe q) p qs (key_leb_total p q gt) s.0, insert-IsSorted p qs s.1)
]

-- The records come out in the order of their time stamps, equal stamps in the order of the file.
pub sort-IsSorted : (ps : List Packet) → IsSorted (sort ps)
unfolding sort
sort-IsSorted [] = tt
sort-IsSorted (p ∷ ps) = insert-IsSorted p (sort ps) (sort-IsSorted ps)

insert-perm : (p : Packet) (ps : List Packet) → Perm (insert p ps) (p ∷ ps)
unfolding insert
insert-perm p [] = Perm.refl (p ∷ [])
insert-perm p (q ∷ qs) = elim (Bool-cases (key_leb p q)) [
  | inl le ↦ rw le (Perm.refl (p ∷ q ∷ qs))
  | inr gt ↦ rw gt (Perm.trans (Perm.cons q (insert-perm p qs)) (Perm.swap p q qs))
]

-- The sort neither loses nor adds a record.
sort-perm : (ps : List Packet) → Perm (sort ps) ps
unfolding sort
sort-perm [] = Perm.refl []
sort-perm (p ∷ ps) = Perm.trans (insert-perm p (sort ps)) (Perm.cons p (sort-perm ps))

-- The sorted records are those that were there, none lost or added, in the order of their times: by the
-- seconds, then by the fractions, then by the places in the file.
pub sort-Sorts : (ps : List Packet) → IsSorted (sort ps) × Perm (sort ps) ps
sort-Sorts ps = (sort-IsSorted ps, sort-perm ps)

-- A sorted list is left as it is.
pub sort-sorted : (ps : List Packet) → IsSorted ps → sort ps ≡ ps
unfolding sort insert
sort-sorted [] s = refl
sort-sorted (p ∷ []) s = refl
sort-sorted (p ∷ q ∷ qs) s = ap (insert p) (sort-sorted (q ∷ qs) s.1) ∙ rw (KeyLe-key_leb p q s.0.0)
