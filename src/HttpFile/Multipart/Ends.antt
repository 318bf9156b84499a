-- ===== src/HttpFile/Multipart/Ends.antt =====
-- socket_server/http_file.py, lines 130 to 187: the loops of the parser end.
use socket_server.Prelude.{
  either, ℕ, zero, suc, ◌+◌, ◌*◌, ◌≤◌, ◌<◌, refl, arith, inl, inr, Option, [], ◌∷◌, ◌++◌, ◌==◌,
  Bool-cases, Option-cases, length, length-take,
}
use socket_server.Prelude.Bytes.{Bytes, Text, codes, eqb, starts_with}
use socket_server.HttpFile.Reader.{
  BodyReader, Result, ok, err, malformed, new_reader, fill, skip, read_headers, stream_value,
  cap_sink,
}
use socket_server.HttpFile.Reader.Ends.{
  Ends, Ends-bind, work, fill-work, skip_two-work, skip-work, cap_sink-steady, read_headers-Ends,
  stream_value-Ends,
}
use socket_server.HttpFile.Multipart.{
  Texts, Scan, Opener, name_of, new_scan, or_error, in_scan, count_written, file_error, path_field,
  file_sink, stream_file, open_once, file_field, other_field, field, after_headers, parse_round,
  parse_fields, parse_multipart_stream,
}

module _ {U : Type 0} (texts : Texts) (opener : Opener U)
    (opens : (path : Option Text) (u : U) → Ends (λ p. Unit {0}) (opener.open_file path u))
    (writes : (fh : Text) (b : Bytes) (u : U) → Ends (λ u'. Unit {0}) (opener.write fh b u)) where
  module _ (fuel : ℕ) (delim : Bytes) (long : 0 < length delim) where
    abbrev StepEnds : ℕ → Result (Scan U) (BodyReader × Scan U) → Type 0
    StepEnds n = Ends (λ p. work p.0 ≤ n)

    or_error-Ends :
        {S A : Type 0} (n : ℕ) (Q : A → Type 0) (s : Scan U) (r : Result S A)
        (f : A → Result (Scan U) (BodyReader × Scan U))
        → Ends Q r
        → ((a : A) → Q a → StepEnds n (f a))
        → StepEnds n (or_error s r f)
    or_error-Ends n Q s (ok a) f h k = k a h
    or_error-Ends n Q s (err e st) f h k = h

    path_field-Ends :
        (br : BodyReader) (s : Scan U)
        → work br < fuel
        → StepEnds (work br) (path_field texts opener fuel delim br s)
    unfolding path_field
    path_field-Ends br s h =
        or_error-Ends (work br) _ s (stream_value delim (cap_sink 4096) fuel br []) _
          (stream_value-Ends delim (cap_sink 4096) cap_sink-steady long fuel br [] h) (λ p k. k)

    other_field-Ends :
        (br : BodyReader) (s : Scan U)
        → work br < fuel
        → StepEnds (work br) (other_field texts opener fuel delim br s)
    unfolding other_field
    other_field-Ends br s h =
        or_error-Ends (work br) _ s (stream_value delim (λ b (st : Unit {0}). ok st) fuel br tt) _
          (stream_value-Ends delim (λ b (st : Unit {0}). ok st) (λ b st. tt) long fuel br tt h)
          (λ p k. k)

    count_written-Ends :
        (n : ℕ) (r : Result U U)
        → Ends (λ u. Unit {0}) r
        → Ends (λ p. Unit {0}) (count_written texts opener fuel delim n r)
    count_written-Ends n (ok u) h = tt
    count_written-Ends n (err e u) h = h

    file_error-Ends :
        {A : Type 0} (n : ℕ) (Q : A → Type 0) (s : Scan U) (r : Result (U × ℕ) A)
        (f : A → Result (Scan U) (BodyReader × Scan U))
        → Ends Q r
        → ((a : A) → Q a → StepEnds n (f a))
        → StepEnds n (file_error texts opener fuel delim s r f)
    file_error-Ends n Q s (ok a) f h k = k a h
    file_error-Ends n Q s (err e (u, m)) f h k = h

    stream_file-Ends :
        (fh : Text) (br : BodyReader) (s : Scan U)
        → work br < fuel
        → StepEnds (work br) (stream_file texts opener fuel delim fh br s)
    unfolding stream_file file_sink
    stream_file-Ends fh br s h =
        file_error-Ends (work br) (λ p. work p.0 ≤ work br) s _ _
          (stream_value-Ends delim (file_sink texts opener fuel delim fh)
            (λ b st.
              count_written-Ends (st.1 + length b) (opener.write fh b st.0) (writes fh b st.0))
            long fuel br (s.world, 0) h)
          (λ p k. k)

    in_scan-Ends :
        {A : Type 0} (n : ℕ) (s : Scan U) (r : Result U A)
        (f : A → Result (Scan U) (BodyReader × Scan U))
        → Ends (λ a. Unit {0}) r
        → ((a : A) → StepEnds n (f a))
        → StepEnds n (in_scan s r f)
    in_scan-Ends n s (ok a) f h k = k a
    in_scan-Ends n s (err e u) f h k = h

    open_once-Ends :
        (n : ℕ) (s : Scan U) (f : Text → Scan U → Result (Scan U) (BodyReader × Scan U))
        → ((fh : Text) (s' : Scan U) → StepEnds n (f fh s'))
        → StepEnds n (open_once texts opener fuel delim s f)
    unfolding open_once
    open_once-Ends n s f k = elim (Option-cases s.fh) [
      | inl closed ↦
          rw (closed, open_once)
            (in_scan-Ends n s (opener.open_file s.path_val s.world) _ (opens s.path_val s.world)
              (λ p. k p.0 _))
      | inr (fh, known) ↦ rw (known, open_once) (k fh s)
    ]

    file_field-Ends :
        (headers : Text) (br : BodyReader) (s : Scan U)
        → work br < fuel
        → StepEnds (work br) (file_field texts opener fuel delim headers br s)
    unfolding file_field
    file_field-Ends headers br s h =
        open_once-Ends (work br) _ _ (λ fh s'. stream_file-Ends fh br s' h)

    field-Ends :
        (headers : Text) (br : BodyReader) (s : Scan U)
        → work br < fuel
        → StepEnds (work br) (field texts opener fuel delim headers br s)
    unfolding field
    field-Ends headers br s h =
        either (StepEnds (work br)) (eqb (name_of texts headers) (codes "path")) _ _
          (path_field-Ends br s h)
          (either (StepEnds (work br)) (eqb (name_of texts headers) (codes "file")) _ _
            (file_field-Ends headers br s h) (other_field-Ends br s h))

    abbrev ScanEnds : Result (Scan U) (Scan U) → Type 0
    ScanEnds = Ends (λ s. Unit {0})

    after_headers-Ends :
        (n : ℕ) (next : BodyReader → Scan U → Result (Scan U) (Scan U)) (headers : Bytes)
        (br : BodyReader) (s : Scan U)
        → work br < n
        → n ≤ fuel
        → ((br' : BodyReader) (s' : Scan U) → work br' < n → ScanEnds (next br' s'))
        → ScanEnds (after_headers texts opener fuel delim next headers br s)
    unfolding after_headers
    after_headers-Ends n next headers br s h le ih =
        Ends-bind (λ p. work p.0 ≤ work br) (λ t. Unit {0})
          (field texts opener fuel delim (texts.decode headers) br s) _
          (field-Ends (texts.decode headers) br s (omega arith)) (λ p k. ih p.0 p.1 (omega arith))

    parse_fields-Ends :
        (rounds : ℕ) (br : BodyReader) (s : Scan U)
        → work br < rounds
        → rounds ≤ fuel
        → ScanEnds (parse_fields texts opener fuel delim rounds br s)
    unfolding parse_fields parse_round
    parse_fields-Ends zero br s h le = absurd (omega arith)
    parse_fields-Ends (suc rounds) br s h le =
        let filled = fill 2 br in
        let less = fill-work 2 br in
        either ScanEnds (length filled.buf == 0) _ _ refl (
          either ScanEnds (starts_with (codes "--") filled.buf) _ _ tt
            (elim (Bool-cases (starts_with (13 ∷ 10 ∷ []) filled.buf)) [
              | inl line ↦
                  let two = skip_two-work filled line in
                  rw line (
                    Ends-bind (λ p. work p.1 ≤ work (skip 2 filled)) (λ t. Unit {0})
                      (read_headers s fuel (skip 2 filled)) _
                      (read_headers-Ends s fuel (skip 2 filled) (omega arith))
                      (λ p k.
                        after_headers-Ends rounds (parse_fields texts opener fuel delim rounds) p.0
                          p.1 s (omega arith) (omega arith)
                          (λ br' s' l. parse_fields-Ends rounds br' s' l (omega arith))))
              | inr none_ ↦ rw none_ refl
            ]))

  -- If the file's calls raise errors of their own only, the parser of a whole body ends: its loops have
  -- fuel for every body, boundary and announced length.
  pub parse_multipart_stream-Ends :
      (rfile : Bytes) (content_length : ℕ) (boundary : Bytes) (u : U)
      → Ends (λ s. Unit {0}) (parse_multipart_stream texts opener rfile content_length boundary u)
  unfolding parse_multipart_stream
  parse_multipart_stream-Ends rfile content_length boundary u =
      let start = fill (length boundary + 4) (new_reader rfile content_length) in
      let skipped = skip (length boundary + 2) start in
      let a = fill-work (length boundary + 4) (new_reader rfile content_length) in
      let b = skip-work (length boundary + 2) start in
      let c = length-take content_length rfile in
      either (Ends (λ s. Unit {0})) (starts_with (codes "--" ++ boundary) start.buf) _
        (err malformed (new_scan u))
        (parse_fields-Ends (2 * content_length + 2) (13 ∷ 10 ∷ (codes "--" ++ boundary))
          (omega arith) (2 * content_length + 2) skipped (new_scan u) (omega arith) (omega arith))
        refl
