-- ===== src/HttpFile/Reader/Ends.antt =====
-- socket_server/http_file.py, lines 54 to 98: the loops of the reader end.
use socket_server.Prelude.{
  [], ◌∷◌, either, ℕ, zero, suc, ◌+◌, ◌-◌, ◌*◌, ◌≤◌, ◌<◌, ◌≡◌, refl, ap, Bool, true, false, ◌==◌,
  ltb, arith, inl, inr, Bool-cases, Option-cases, length, take, drop, length-append, length-drop,
  ltb→lt,
}
use socket_server.Prelude.Bytes.{Bytes, starts_with, starts_with-drop}
use socket_server.HttpFile.Reader.{
  BodyReader, Error, out_of_fuel, Result, ok, err, ◌>>=◌, fill, skip, chunk_size, find, is_tail,
  flush, refill, read_on, at_delim, stream_value, read_headers, blank_line, cap_sink,
}
use socket_server.HttpFile.Reader.Fill.{unread, pending, fill-IsFilled}

abbrev pub is_fuel : Error → Bool
is_fuel out_of_fuel = true
is_fuel _ = false

-- A result in which no loop ran out of fuel, and for which `Q` holds if there was no error.
abbrev pub Ends : {S A : Type 0} → (A → Type 0) → Result S A → Type 0
Ends Q (ok a) = Q a
Ends Q (err e st) = is_fuel e ≡ false

pub Ends-bind :
    {S A B : Type 0} (Q : A → Type 0) (R : B → Type 0) (r : Result S A) (f : A → Result S B)
    → Ends Q r
    → ((a : A) → Q a → Ends R (f a))
    → Ends R (r >>= f)
Ends-bind Q R (ok a) f h k = k a h
Ends-bind Q R (err e st) f h k = h

pub Ends-imp :
    {S A : Type 0} (Q R : A → Type 0) (r : Result S A) → Ends Q r → ((a : A) → Q a → R a) → Ends R r
Ends-imp Q R (ok a) h k = k a h
Ends-imp Q R (err e st) h k = h

-- The bytes that are left, those that are not read yet counted twice.
abbrev pub work : BodyReader → ℕ
work br = length br.buf + 2 * length (unread br)

pub fill-work : (need : ℕ) (br : BodyReader) → work (fill need br) ≤ work br
fill-work need br =
    let f = fill-IsFilled need br in
    let same : length (pending (fill need br)) ≡ length (pending br) = ap length f.same in
    omega (
      arith,
      f.grown,
      length-append (fill need br).buf (unread (fill need br)),
      length-append br.buf (unread br),
    )

pub fill_works :
    (need : ℕ) (br : BodyReader)
    → (length (fill need br).buf == length br.buf) ≡ false
    → work (fill need br) < work br
fill_works need br more =
    let f = fill-IsFilled need br in
    let same : length (pending (fill need br)) ≡ length (pending br) = ap length f.same in
    let grown = f.grown in
    let a = length-append (fill need br).buf (unread (fill need br)) in
    let b = length-append br.buf (unread br) in ground arith

pub drop-work : (n : ℕ) (br : BodyReader) → work (record br { buf = drop n br.buf }) ≤ work br
drop-work n br = omega (arith, length-drop n br.buf)

-- Behind CR LF at the front there are two bytes less.
pub skip_two-work :
    (br : BodyReader) → starts_with (13 ∷ 10 ∷ []) br.buf ≡ true → work (skip 2 br) + 2 ≤ work br
unfolding skip
skip_two-work br h =
    let whole = ap length (starts_with-drop (13 ∷ 10 ∷ []) br.buf h) in
    omega (arith, length-drop 2 br.buf)

pub skip-work : (n : ℕ) (br : BodyReader) → work (skip n br) ≤ work br
unfolding skip
skip-work n br = omega (arith, length-drop n br.buf)

pub cap_sink-steady : (b p : Bytes) → Ends (λ st'. Unit {0}) (cap_sink 4096 b p)
unfolding cap_sink
cap_sink-steady b p = either (Ends (λ st'. Unit {0})) (ltb 4096 (length p + length b)) _ _ refl tt

pub read_headers-Ends :
    {S : Type 0} (st : S) (fuel : ℕ) (br : BodyReader)
    → work br < fuel
    → Ends (λ p. work p.1 ≤ work br) (read_headers st fuel br)
unfolding read_headers
read_headers-Ends st zero br h = absurd (omega arith)
read_headers-Ends st (suc fuel) br h = elim (Option-cases (find blank_line br.buf)) [
  | inr (i, found) ↦ rw (found, read_headers) (drop-work (i + 4) br)
  | inl missing ↦
      let filled = fill (length br.buf + 8192) br in
      rw (missing, read_headers)
        (either (Ends (λ p. work p.1 ≤ work br)) (ltb 16384 (length br.buf)) _ _ refl
          (elim (Bool-cases (length filled.buf == length br.buf)) [
            | inl stuck ↦ rw (stuck, read_headers) refl
            | inr more ↦
                let less = fill_works (length br.buf + 8192) br more in
                rw (more, read_headers)
                  (Ends-imp (λ p. work p.1 ≤ work filled) (λ p. work p.1 ≤ work br)
                    (read_headers st fuel filled) (read_headers-Ends st fuel filled (omega arith))
                    (λ p k. omega arith))
          ]))
]

module _ {S : Type 0} (d : Bytes) (sink : Bytes → S → Result S S)
    (steady : (b : Bytes) (st : S) → Ends (λ st'. Unit {0}) (sink b st)) (long : 0 < length d) where
  -- The work that is left is at most `n`.
  abbrev Within : ℕ → BodyReader × S → Type 0
  Within n p = work p.0 ≤ n

  module _ (fuel : ℕ) (next : BodyReader → S → Result S (BodyReader × S))
      (ih : (br : BodyReader) (st : S)
        → work br < fuel
        → Ends (Within (work br)) (next br st)) where
    refill-Ends :
        (n : ℕ) (br : BodyReader) (st : S)
        → work br ≤ n
        → n < suc fuel
        → Ends (Within n) (refill d sink next br st)
    unfolding refill
    refill-Ends n br st le h =
        let filled = fill (length br.buf + chunk_size) br in
        elim (Bool-cases (length filled.buf == length br.buf)) [
          | inl stuck ↦ rw (stuck, refill) refl
          | inr more ↦
              let less = fill_works (length br.buf + chunk_size) br more in
              rw (more, refill)
                (Ends-imp (Within (work filled)) (Within n) (next filled st)
                  (ih filled st (omega arith)) (λ p k. omega arith))
        ]

    flush-Ends : (br : BodyReader) (st : S) → Ends (Within (work br)) (flush d sink br st)
    unfolding flush
    flush-Ends br st =
        let k = length br.buf - (length d + 1) in
        either (Ends (Within (work br))) (ltb (length d + 1) (length br.buf)) _ _
          (Ends-bind (λ st'. Unit {0}) (Within (work br)) (sink (take k br.buf) st) _ (steady _ st)
            (λ st' u. drop-work k br))
          (omega arith)

    read_on-Ends :
        (n : ℕ) (br : BodyReader) (st : S)
        → work br ≤ n
        → n < suc fuel
        → Ends (Within n) (read_on d sink next br st)
    unfolding read_on
    read_on-Ends n br st le h =
        Ends-bind (Within (work br)) (Within n) (flush d sink br st) _ (flush-Ends br st)
          (λ p k. refill-Ends n p.0 p.1 (omega arith) h)

    at_delim-Ends :
        (i : ℕ) (br : BodyReader) (st : S)
        → work br < suc fuel
        → Ends (Within (work br)) (at_delim d sink next i br st)
    unfolding at_delim
    at_delim-Ends i br st h =
        let end = i + length d in
        let left = record br { buf = drop end br.buf } in
        let E = Ends (Within (work br)) in
        either E (is_tail (take 2 (drop end br.buf))) _ _
          (Ends-bind (λ st'. Unit {0}) (Within (work br)) (sink (take i br.buf) st) _ (steady _ st)
            (λ st' u. drop-work end br))
          (elim (Bool-cases (ltb (end + 2) (length br.buf))) [
            | inl visible ↦
                let shorter = length-drop end br.buf in
                let more = ltb→lt (end + 2) (length br.buf) visible in
                rw visible (
                  Ends-bind (λ st'. Unit {0}) (Within (work br)) (sink (take end br.buf) st) _
                    (steady _ st)
                    (λ st' u.
                      Ends-imp (Within (work left)) (Within (work br)) (next left st')
                        (ih left st' (omega arith)) (λ p k. omega arith)))
            | inr hidden ↦ rw hidden (read_on-Ends (work br) br st (omega arith) h)
          ])

  -- With more fuel than work that is left the value is read, or ends with an error of its own.
  pub stream_value-Ends :
      (fuel : ℕ) (br : BodyReader) (st : S)
      → work br < fuel
      → Ends (Within (work br)) (stream_value d sink fuel br st)
  unfolding stream_value
  stream_value-Ends zero br st h = absurd (omega arith)
  stream_value-Ends (suc fuel) br st h = elim (Option-cases (find d br.buf)) [
    | inl nowhere ↦
        rw (nowhere, stream_value)
          (read_on-Ends fuel (stream_value d sink fuel) (stream_value-Ends fuel) (work br) br st
            (omega arith) h)
    | inr (i, found) ↦
        rw (found, stream_value)
          (at_delim-Ends fuel (stream_value d sink fuel) (stream_value-Ends fuel) i br st h)
  ]
