-- ===== src/HttpFile/Reader/Keeps.antt =====
-- socket_server/http_file.py, lines 54 to 98: properties of a sink's state that go through the reader.
use socket_server.Prelude.{
  either, ℕ, zero, suc, ◌+◌, ◌-◌, inl, inr, ltb, ◌==◌, Bool-cases, Option-cases, length, take, drop,
}
use socket_server.Prelude.Bytes.{Bytes}
use socket_server.HttpFile.Reader.{
  BodyReader, Result, ok, err, ◌>>=◌, fill, chunk_size, find, is_tail, flush, refill, read_on,
  at_delim, stream_value, read_headers, blank_line,
}

-- Of a result `Q` holds, or `P` of the state that an exception left.
abbrev pub Holds : {S A : Type 0} → (S → Type 0) → (A → Type 0) → Result S A → Type 0
Holds P Q (ok a) = Q a
Holds P Q (err e st) = P st

pub Holds-bind :
    {S A B : Type 0} (P : S → Type 0) (Q : A → Type 0) (R : B → Type 0) (r : Result S A)
    (f : A → Result S B)
    → Holds P Q r
    → ((a : A) → Q a → Holds P R (f a))
    → Holds P R (r >>= f)
Holds-bind P Q R (ok a) f h k = k a h
Holds-bind P Q R (err e st) f h k = h

pub read_headers-Holds :
    {S : Type 0} (P : S → Type 0) (st : S) (fuel : ℕ) (br : BodyReader)
    → P st
    → Holds P (λ p. Unit {0}) (read_headers st fuel br)
unfolding read_headers
read_headers-Holds P st zero br h = h
read_headers-Holds P st (suc fuel) br h = elim (Option-cases (find blank_line br.buf)) [
  | inr (i, found) ↦ rw (found, read_headers) tt
  | inl missing ↦
      rw (missing, read_headers)
        (either (Holds P (λ p. Unit {0})) (ltb 16384 (length br.buf)) _ _ h
          (elim (Bool-cases (length (fill (length br.buf + 8192) br).buf == length br.buf)) [
            | inl stuck ↦ rw (stuck, read_headers) h
            | inr more ↦ rw (more, read_headers) (read_headers-Holds P st fuel _ h)
          ]))
]

module _ {S : Type 0} (P : S → Type 0) (d : Bytes) (sink : Bytes → S → Result S S)
    (keeps : (b : Bytes) (st : S) → P st → Holds P P (sink b st)) where
  abbrev After : BodyReader × S → Type 0
  After p = P p.1

  module _ (next : BodyReader → S → Result S (BodyReader × S))
      (ih : (br : BodyReader) (st : S) → P st → Holds P After (next br st)) where
    refill-Holds : (br : BodyReader) (st : S) → P st → Holds P After (refill d sink next br st)
    unfolding refill
    refill-Holds br st h =
        elim (Bool-cases (length (fill (length br.buf + chunk_size) br).buf == length br.buf)) [
          | inl stuck ↦ rw (stuck, refill) h
          | inr more ↦ rw (more, refill) (ih _ st h)
        ]

    flush-Holds : (br : BodyReader) (st : S) → P st → Holds P After (flush d sink br st)
    unfolding flush
    flush-Holds br st h =
        either (Holds P After) (ltb (length d + 1) (length br.buf)) _ _
          (Holds-bind P P After (sink (take (length br.buf - (length d + 1)) br.buf) st) _
            (keeps _ st h) (λ st' k. k))
          h

    read_on-Holds : (br : BodyReader) (st : S) → P st → Holds P After (read_on d sink next br st)
    unfolding read_on
    read_on-Holds br st h =
        Holds-bind P After After (flush d sink br st) _ (flush-Holds br st h)
          (λ p k. refill-Holds p.0 p.1 k)

    at_delim-Holds :
        (i : ℕ) (br : BodyReader) (st : S) → P st → Holds P After (at_delim d sink next i br st)
    unfolding at_delim
    at_delim-Holds i br st h =
        let end = i + length d in
        either (Holds P After) (is_tail (take 2 (drop end br.buf))) _ _
          (Holds-bind P P After (sink (take i br.buf) st) _ (keeps _ st h) (λ st' k. k))
          (either (Holds P After) (ltb (end + 2) (length br.buf)) _ _
            (Holds-bind P P After (sink (take end br.buf) st) _ (keeps _ st h)
              (λ st' k. ih _ st' k))
            (read_on-Holds br st h))

  pub stream_value-Holds :
      (fuel : ℕ) (br : BodyReader) (st : S) → P st → Holds P After (stream_value d sink fuel br st)
  unfolding stream_value
  stream_value-Holds zero br st h = h
  stream_value-Holds (suc fuel) br st h = elim (Option-cases (find d br.buf)) [
    | inl nowhere ↦
        rw (nowhere, stream_value)
          (read_on-Holds (stream_value d sink fuel) (stream_value-Holds fuel) br st h)
    | inr (i, found) ↦
        rw (found, stream_value)
          (at_delim-Holds (stream_value d sink fuel) (stream_value-Holds fuel) i br st h)
  ]
