-- ===== src/HttpFile/Reader/Find.antt =====
-- socket_server/http_file.py, lines 79 to 91: `bytes.find` and the text behind a delimiter.
use socket_server.Prelude.{
  ℕ, zero, suc, ◌+◌, ◌≤◌, ◌<◌, ◌≡◌, refl, sym, ap, ◌∙◌, ◌≢◌, inl, inr, true, false, none, some, [],
  ◌∷◌, ◌++◌, arith, Bool-cases, length, take, drop, All,
}
use socket_server.Prelude.Bytes.{Bytes, eqb, starts_with}
use socket_server.HttpFile.Reader.{find, is_tail}

pub starts_with-fits : (d s : Bytes) → starts_with d s ≡ true → length d ≤ length s
unfolding starts_with
starts_with-fits [] s h = omega arith
starts_with-fits (p ∷ ps) [] h = cc
starts_with-fits (p ∷ ps) (x ∷ xs) h = ground (arith, starts_with-fits ps xs)

pub starts_with-extend :
    (d s t : Bytes) → length d ≤ length s → starts_with d (s ++ t) ≡ starts_with d s
unfolding starts_with
starts_with-extend [] s t h = refl
starts_with-extend (p ∷ ps) [] t h = absurd (omega arith)
starts_with-extend (p ∷ ps) (x ∷ xs) t h = ground (arith, starts_with-extend ps xs t)

pub starts_with_short : (d s : Bytes) → length s < length d → starts_with d s ≡ false
starts_with_short d s h = elim (Bool-cases (starts_with d s)) [
  | inl e ↦ absurd (omega (arith, starts_with-fits d s e))
  | inr e ↦ e
]

pub drop-append_le : (j : ℕ) (s t : Bytes) → j ≤ length s → drop j (s ++ t) ≡ drop j s ++ t
drop-append_le zero s t h = refl
drop-append_le (suc j) [] t h = absurd (omega arith)
drop-append_le (suc j) (x ∷ xs) t h = drop-append_le j xs t (omega arith)

pub take-append_le : (j : ℕ) (s t : Bytes) → j ≤ length s → take j (s ++ t) ≡ take j s
take-append_le zero s t h = refl
take-append_le (suc j) [] t h = absurd (omega arith)
take-append_le (suc j) (x ∷ xs) t h = ap (λ r. x ∷ r) (take-append_le j xs t (omega arith))

drop_nil : (j : ℕ) → drop {A = ℕ} j [] ≡ []
drop_nil zero = refl
drop_nil (suc j) = refl

pub drop-drop : (i j : ℕ) (s : Bytes) → drop j (drop i s) ≡ drop (i + j) s
drop-drop zero j s = ap (λ n. drop n s) (omega arith)
drop-drop (suc i) j [] = drop_nil j ∙ sym (drop_nil (suc i + j))
drop-drop (suc i) j (x ∷ xs) =
    let e : suc (i + j) ≡ suc i + j = omega arith in drop-drop i j xs ∙ ap (λ n. drop n (x ∷ xs)) e

before_suc :
    {i : ℕ} (P : ℕ → Type 0) → P 0 → ((j : ℕ) → j < i → P (suc j)) → (j : ℕ) → j < suc i → P j
before_suc P first later zero lt = first
before_suc P first later (suc j) lt = later j (omega arith)

-- A position that is found has the delimiter, and no earlier one has.
pub find-some :
    (d s : Bytes) (i : ℕ)
    → find d s ≡ some i
    → (starts_with d (drop i s) ≡ true) × ((j : ℕ) → j < i → starts_with d (drop j s) ≡ false)
unfolding find
find-some d [] zero h = (ground arith, λ j lt. absurd (omega arith))
find-some d [] (suc i) h = absurd (ground arith)
find-some d (x ∷ xs) zero h = (ground arith, λ j lt. absurd (omega arith))
find-some d (x ∷ xs) (suc i) h =
    let later = find-some d xs i (ground arith) in
    (later.0, before_suc (λ j. starts_with d (drop j (x ∷ xs)) ≡ false) (ground arith) later.1)

pub find-none : (d s : Bytes) → find d s ≡ none → (j : ℕ) → starts_with d (drop j s) ≡ false
unfolding find
find-none d [] h j = rw (drop_nil j) (ground arith)
find-none d (x ∷ xs) h zero = ground arith
find-none d (x ∷ xs) h (suc j) = find-none d xs (ground arith) j

-- The carriage return of a delimiter is its first byte and no other, so two delimiters never overlap.
abbrev pub IsDelimiter : Bytes → Type 0
IsDelimiter [] = ⊥
IsDelimiter (c ∷ ds) = (c ≡ 13) × (3 ≤ length ds) × All (λ b. b ≢ 13) ds

overlap_tail :
    (ds es s : Bytes) (m : ℕ)
    → starts_with ds s ≡ true
    → All (λ b. b ≢ 13) ds
    → m < length ds
    → starts_with (13 ∷ es) (drop m s) ≡ false
unfolding starts_with
overlap_tail [] es s m h a lt = absurd (omega arith)
overlap_tail (d ∷ ds) es [] m h a lt = cc
overlap_tail (d ∷ ds) es (x ∷ xs) zero h a lt = ground arith
overlap_tail (d ∷ ds) es (x ∷ xs) (suc m) h a lt =
    overlap_tail ds es xs m (ground arith) a.1 (omega arith)

pub overlap :
    (d s : Bytes) (m : ℕ)
    → IsDelimiter d
    → starts_with d s ≡ true
    → 0 < m
    → m < length d
    → starts_with d (drop m s) ≡ false
unfolding starts_with
overlap [] s m v h pos_m lt = absurd v
overlap (c ∷ ds) [] m v h pos_m lt = cc
overlap (c ∷ ds) (x ∷ xs) zero v h pos_m lt = absurd (omega arith)
overlap (c ∷ ds) (x ∷ xs) (suc m) v h pos_m lt =
    rw v.0 (overlap_tail ds ds xs m (ground arith) v.2 (omega arith))

-- A short text behind a delimiter, and what follows it.
pub is_tail-append : (t u : Bytes) → 2 ≤ length t → is_tail (t ++ u) ≡ is_tail t
unfolding is_tail
is_tail-append (p ∷ q ∷ t) u h = refl
is_tail-append _ u h = absurd (omega arith)

pub is_tail_more : (t u : Bytes) → is_tail t ≡ true → is_tail (t ++ u) ≡ true
unfolding is_tail eqb
is_tail_more [] u h = cc
is_tail_more (p ∷ []) u h = ground arith
is_tail_more (p ∷ q ∷ t) u h = h

pub is_tail-take : (t : Bytes) → is_tail (take 2 t) ≡ is_tail t
unfolding is_tail
is_tail-take [] = refl
is_tail-take (p ∷ []) = refl
is_tail-take (p ∷ q ∷ t) = refl
