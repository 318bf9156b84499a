-- ===== src/HttpFile/Multipart/Keeps.antt =====
-- socket_server/http_file.py, lines 130 to 187: properties of the world that go through the parser.
use socket_server.Prelude.{
  either, ℕ, zero, suc, ◌+◌, ◌*◌, subst, inl, inr, Option, none, some, [], ◌∷◌, ◌++◌, ◌==◌,
  Option-cases, length,
}
use socket_server.Prelude.Bytes.{Bytes, Text, codes, eqb, starts_with}
use socket_server.HttpFile.Reader.{
  BodyReader, Result, ok, err, malformed, new_reader, fill, skip, read_headers, stream_value,
  cap_sink,
}
use socket_server.HttpFile.Reader.Keeps.{Holds, Holds-bind, read_headers-Holds, stream_value-Holds}
use socket_server.HttpFile.Multipart.{
  Texts, Scan, Opener, name_of, new_scan, or_error, in_scan, count_written, file_error, path_field,
  file_sink, stream_file, open_once, file_field, other_field, field, after_headers, parse_round,
  parse_fields, parse_multipart_stream,
}

module _ {U : Type 0} (texts : Texts) (opener : Opener U) (P : U → Type 0) (H : Text → Type 0)
    (opens : (path : Option Text) (u : U)
      → P u
      → Holds P (λ p. H p.0 × P p.1) (opener.open_file path u))
    (writes : (fh : Text) (b : Bytes) (u : U) → H fh → P u → Holds P P (opener.write fh b u)) where
  abbrev HandleHolds : Option Text → Type 0
  HandleHolds none = Unit
  HandleHolds (some fh) = H fh

  abbrev pub ScanHolds : Scan U → Type 0
  ScanHolds s = P s.world × HandleHolds s.fh

  module _ (fuel : ℕ) (delim : Bytes) where
    abbrev StepHolds : Result (Scan U) (BodyReader × Scan U) → Type 0
    StepHolds = Holds ScanHolds (λ p. ScanHolds p.1)

    or_error-Holds :
        {S A : Type 0} (s : Scan U) (r : Result S A) (f : A → Result (Scan U) (BodyReader × Scan U))
        → ScanHolds s
        → ((a : A) → StepHolds (f a))
        → StepHolds (or_error s r f)
    or_error-Holds s (ok a) f h k = k a
    or_error-Holds s (err e st) f h k = h

    path_field-Holds :
        (br : BodyReader) (s : Scan U)
        → ScanHolds s
        → StepHolds (path_field texts opener fuel delim br s)
    unfolding path_field
    path_field-Holds br s h =
        or_error-Holds s (stream_value delim (cap_sink 4096) fuel br []) _ h (λ p. h)

    other_field-Holds :
        (br : BodyReader) (s : Scan U)
        → ScanHolds s
        → StepHolds (other_field texts opener fuel delim br s)
    unfolding other_field
    other_field-Holds br s h =
        or_error-Holds s (stream_value delim (λ b (st : Unit {0}). ok st) fuel br tt) _ h (λ p. h)

    abbrev Written : U × ℕ → Type 0
    Written p = P p.0

    count_written-Holds :
        (n : ℕ) (r : Result U U)
        → Holds P P r
        → Holds Written Written (count_written texts opener fuel delim n r)
    count_written-Holds n (ok u) h = h
    count_written-Holds n (err e u) h = h

    file_error-Holds :
        {A : Type 0} (s : Scan U) (Q : A → Type 0) (r : Result (U × ℕ) A)
        (f : A → Result (Scan U) (BodyReader × Scan U))
        → HandleHolds s.fh
        → Holds Written Q r
        → ((a : A) → Q a → StepHolds (f a))
        → StepHolds (file_error texts opener fuel delim s r f)
    file_error-Holds s Q (ok a) f hh h k = k a h
    file_error-Holds s Q (err e (u, n)) f hh h k = (h, hh)

    stream_file-Holds :
        (fh : Text) (br : BodyReader) (s : Scan U)
        → H fh
        → ScanHolds s
        → StepHolds (stream_file texts opener fuel delim fh br s)
    unfolding stream_file file_sink
    stream_file-Holds fh br s hh h =
        file_error-Holds s (λ p. Written p.1) _ _ h.1
          (stream_value-Holds Written delim (file_sink texts opener fuel delim fh)
            (λ b st k.
              count_written-Holds (st.1 + length b) (opener.write fh b st.0)
                (writes fh b st.0 hh k))
            fuel br (s.world, 0) h.0)
          (λ p k. (k, h.1))

    in_scan-Holds :
        {A : Type 0} (s : Scan U) (Q : A → Type 0) (r : Result U A)
        (f : A → Result (Scan U) (BodyReader × Scan U))
        → HandleHolds s.fh
        → Holds P Q r
        → ((a : A) → Q a → StepHolds (f a))
        → StepHolds (in_scan s r f)
    in_scan-Holds s Q (ok a) f hh h k = k a h
    in_scan-Holds s Q (err e u) f hh h k = (h, hh)

    open_once-Holds :
        (s : Scan U) (f : Text → Scan U → Result (Scan U) (BodyReader × Scan U))
        → ScanHolds s
        → ((fh : Text) (s' : Scan U) → H fh → ScanHolds s' → StepHolds (f fh s'))
        → StepHolds (open_once texts opener fuel delim s f)
    unfolding open_once
    open_once-Holds s f h k = elim (Option-cases s.fh) [
      | inl closed ↦
          rw (closed, open_once)
            (in_scan-Holds s (λ p. H p.0 × P p.1) (opener.open_file s.path_val s.world) _ h.1
              (opens s.path_val s.world h.0) (λ p q. k p.0 _ q.0 (q.1, q.0)))
      | inr (fh, known) ↦ rw (known, open_once) (k fh s (subst HandleHolds known h.1) h)
    ]

    file_field-Holds :
        (headers : Text) (br : BodyReader) (s : Scan U)
        → ScanHolds s
        → StepHolds (file_field texts opener fuel delim headers br s)
    unfolding file_field
    file_field-Holds headers br s h =
        open_once-Holds _ _ h (λ fh s' hh k. stream_file-Holds fh br s' hh k)

    field-Holds :
        (headers : Text) (br : BodyReader) (s : Scan U)
        → ScanHolds s
        → StepHolds (field texts opener fuel delim headers br s)
    unfolding field
    field-Holds headers br s h =
        either StepHolds (eqb (name_of texts headers) (codes "path")) _ _ (path_field-Holds br s h)
          (either StepHolds (eqb (name_of texts headers) (codes "file")) _ _
            (file_field-Holds headers br s h) (other_field-Holds br s h))

    parse_fields-Holds :
        (rounds : ℕ) (br : BodyReader) (s : Scan U)
        → ScanHolds s
        → Holds ScanHolds ScanHolds (parse_fields texts opener fuel delim rounds br s)
    unfolding parse_fields parse_round after_headers
    parse_fields-Holds zero br s h = h
    parse_fields-Holds (suc rounds) br s h =
        let filled = fill 2 br in
        let All₂ = either (Holds ScanHolds ScanHolds) in
        All₂ (length filled.buf == 0) _ _ h (
          All₂ (starts_with (codes "--") filled.buf) _ _ h (
            All₂ (starts_with (13 ∷ 10 ∷ []) filled.buf) _ _
              (Holds-bind ScanHolds (λ p. Unit {0}) ScanHolds (read_headers s fuel (skip 2 filled))
                _ (read_headers-Holds ScanHolds s fuel (skip 2 filled) h)
                (λ p k.
                  Holds-bind ScanHolds (λ q. ScanHolds q.1) ScanHolds
                    (field texts opener fuel delim (texts.decode p.0) p.1 s) _
                    (field-Holds (texts.decode p.0) p.1 s h)
                    (λ q l. parse_fields-Holds rounds q.0 q.1 l)))
              h))

  pub parse_multipart_stream-Holds :
      (rfile : Bytes) (content_length : ℕ) (boundary : Bytes) (u : U)
      → P u
      → Holds ScanHolds ScanHolds
          (parse_multipart_stream texts opener rfile content_length boundary u)
  unfolding parse_multipart_stream
  parse_multipart_stream-Holds rfile content_length boundary u h =
      let start = fill (length boundary + 4) (new_reader rfile content_length) in
      either (Holds ScanHolds ScanHolds) (starts_with (codes "--" ++ boundary) start.buf) _
        (err malformed (new_scan u))
        (parse_fields-Holds (2 * content_length + 2) (13 ∷ 10 ∷ (codes "--" ++ boundary))
          (2 * content_length + 2) (skip (length boundary + 2) start) (new_scan u) (h, tt))
        (h, tt)
