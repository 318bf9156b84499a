-- ===== src/HttpFile/Reader/Fill.antt =====
-- socket_server/http_file.py, lines 40 to 48: `_BodyReader.fill`.
use socket_server.Prelude.{
  ℕ, zero, suc, ◌-◌, ◌≤◌, ◌<◌, min, ◌≡◌, refl, ap, ◌∙◌, subst, ◌⊎◌, inl, inr, false, ◌&&◌, [], ◌∷◌,
  ◌++◌, append_assoc, arith, ltb, Bool-cases, length, take, drop, length-append,
}
use socket_server.Prelude.Bytes.{Bytes}
use socket_server.HttpFile.Reader.{
  BodyReader, chunk_size, read_chunk, with_chunk, fill_round, fill_loop, fill,
}

-- What of the body is not read yet, and all that is not consumed yet.
abbrev pub unread : BodyReader → Bytes
unread br = take br.remaining br.rfile

abbrev pub pending : BodyReader → Bytes
pending br = br.buf ++ unread br

pub record IsFilled (need : ℕ) (br filled : BodyReader) : Type 0 where
  pub same : pending filled ≡ pending br
  pub enough : (need ≤ length filled.buf) ⊎ (unread filled ≡ [])
  pub grown : length br.buf ≤ length filled.buf

take_nil : (n : ℕ) → take {A = ℕ} n [] ≡ []
take_nil zero = refl
take_nil (suc n) = refl

-- A read of `m` bytes and then of the rest.
take_chunk :
    (m r : ℕ) (xs : Bytes)
    → m ≤ r
    → take m xs ++ take (r - length (take m xs)) (drop m xs) ≡ take r xs
take_chunk zero r xs h = let e : r - 0 ≡ r = omega arith in ap (λ n. take n xs) e
take_chunk (suc m) zero xs h = absurd (omega arith)
take_chunk (suc m) (suc r) [] h = take_nil (suc r - 0)
take_chunk (suc m) (suc r) (x ∷ xs) h =
    let e : suc r - suc (length (take m xs)) ≡ r - length (take m xs) = omega arith in
    ap (λ s. x ∷ s) (ap (λ n. take m xs ++ take n (drop m xs)) e ∙ take_chunk m r xs (omega arith))

pub chunk_pos : 0 < chunk_size
unfolding chunk_size
chunk_pos = omega arith

-- A chunk that came in stands at the front of what was unread.
with_chunk-pending :
    (br : BodyReader) (chunk : Bytes)
    → read_chunk br ≡ chunk
    → pending (with_chunk br chunk) ≡ pending br
with_chunk-pending br chunk e =
    append_assoc br.buf chunk _
    ∙ ap (λ s. br.buf ++ s)
        (subst
          (λ c.
            c ++ take (br.remaining - length c) (drop (min chunk_size br.remaining) br.rfile)
            ≡ unread br)
          e (take_chunk (min chunk_size br.remaining) br.remaining br.rfile (omega arith)))

-- An empty chunk shows the end of the stream.
empty_chunk : (m r : ℕ) (xs : Bytes) → 0 < m → take m xs ≡ [] → take r xs ≡ []
empty_chunk zero r xs h e = absurd (omega arith)
empty_chunk (suc m) zero xs h e = refl
empty_chunk (suc m) (suc r) [] h e = refl
empty_chunk (suc m) (suc r) (x ∷ xs) h e = cc

fill_round-IsFilled :
    (need : ℕ) (br : BodyReader) (next : BodyReader → BodyReader) (chunk : Bytes)
    → read_chunk br ≡ chunk
    → 0 < br.remaining
    → ((b : BodyReader) → b.remaining < br.remaining → IsFilled need b (next b))
    → IsFilled need br (fill_round next br chunk)
unfolding fill_round
fill_round-IsFilled need br next [] e some_left ih =
    let nothing =
      empty_chunk (min chunk_size br.remaining) br.remaining br.rfile (omega (arith, chunk_pos))
        e in
    record { same = rw nothing; enough = inr refl; grown = omega arith }
fill_round-IsFilled need br next (b ∷ bs) e some_left ih =
    let filled = ih (with_chunk br (b ∷ bs)) (omega arith) in
    record {
      same = filled.same ∙ with_chunk-pending br (b ∷ bs) e;
      enough = filled.enough;
      grown = omega (arith, filled.grown, length-append br.buf (b ∷ bs));
    }

stopped :
    (need : ℕ) (br : BodyReader)
    → (ltb (length br.buf) need && ltb 0 br.remaining) ≡ false
    → (need ≤ length br.buf) ⊎ (unread br ≡ [])
stopped need br h = elim (Bool-cases (ltb (length br.buf) need)) [
  | inl short ↦ inr (let none_left : br.remaining ≡ 0 = ground arith in rw none_left)
  | inr enough ↦ inl (ground arith)
]

fill_loop-IsFilled :
    (fuel need : ℕ) (br : BodyReader)
    → br.remaining < fuel
    → IsFilled need br (fill_loop fuel need br)
unfolding fill_loop
fill_loop-IsFilled zero need br h = absurd (omega arith)
fill_loop-IsFilled (suc fuel) need br h =
    elim (Bool-cases (ltb (length br.buf) need && ltb 0 br.remaining)) [
      | inl more ↦
          rw (more, fill_loop)
            (fill_round-IsFilled need br (fill_loop fuel need) (read_chunk br) refl (ground arith)
              (λ b lt. fill_loop-IsFilled fuel need b (omega arith)))
      | inr stop ↦
          rw (stop, fill_loop)
            (record { same = refl; enough = stopped need br stop; grown = omega arith })
    ]

-- `fill(need)` keeps the body, and gives `need` bytes or all that there are.
pub fill-IsFilled : (need : ℕ) (br : BodyReader) → IsFilled need br (fill need br)
unfolding fill
fill-IsFilled need br = fill_loop-IsFilled (suc br.remaining) need br (omega arith)
