-- ===== src/HttpFile/Multipart.antt =====
-- socket_server/http_file.py, lines 119 to 187: the boundary of a Content-Type and
-- `parse_multipart_stream`, over the `open_file` and the sink of an upload.
pub mod Keeps
pub mod Ends
use socket_server.Prelude.{
  ℕ, zero, suc, ◌+◌, ◌*◌, Bool, true, false, not, ◌&&◌, Option, none, some, List, [], ◌∷◌, ◌++◌,
  map, leb, ◌==◌, if◌then◌else◌, length, drop,
}
use socket_server.Prelude.Bytes.{Bytes, Text, codes, eqb, starts_with}
use mathlib.Core.Option
use socket_server.Prelude.Strip.{is_space, strip}
use socket_server.HttpFile.Reader.{
  BodyReader, malformed, truncated_boundary, out_of_fuel, Result, ok, err, ◌>>=◌, new_reader, fill,
  skip, read_headers, stream_value, cap_sink,
}

-- Text functions of Python: UTF-8 and the word characters of `re`.
pub record Texts : Type 0 where
  pub decode : Bytes → Text
  pub encode : Text → Bytes
  pub is_word : ℕ → Bool

-- `split(";")`, the part so far first.
abbrev cons_part : ℕ → List Text → List Text
cons_part c [] = (c ∷ []) ∷ []
cons_part c (p ∷ ps) = (c ∷ p) ∷ ps

pub split : Text → List Text
split [] = [] ∷ []
split (c ∷ cs) = if c == 59 then [] ∷ split cs else cons_part c (split cs)

boundary_of_parts : Texts → List Text → Option Bytes
boundary_of_parts texts [] = none
boundary_of_parts texts (p ∷ ps) =
    let part = strip is_space p in
    let b = strip (λ c. c == 34) (strip is_space (drop 9 part)) in
    let rest = boundary_of_parts texts ps in
    if starts_with (codes "boundary=") part
    then (if not (length b == 0) && leb (length b) 256 then some (texts.encode b) else rest)
    else rest

pub boundary_from_content_type : Texts → Text → Option Bytes
boundary_from_content_type texts content_type = boundary_of_parts texts (split content_type)

-- `([^"]*)"` from here on.
until_quote : Text → Option Text
until_quote [] = none
until_quote (c ∷ cs) = if c == 34 then some [] else Option.map (λ s. c ∷ s) (until_quote cs)

-- `re.search` of a text with a quoted value behind it; with `\b` it begins a word.
search : Texts → Bool → Bool → Text → Text → Option Text
search texts word_start in_word p [] = none
search texts word_start in_word p (x ∷ xs) =
    let rest = search texts word_start (texts.is_word x) p xs in
    if starts_with p (x ∷ xs) && not (word_start && in_word)
    then elim (until_quote (drop (length p) (x ∷ xs))) [ some v ↦ some v | none ↦ rest ]
    else rest

pub name_of : Texts → Text → Text
name_of texts headers = elim (search texts true false (codes "name=" ++ (34 ∷ [])) headers) [
  | some v ↦ v
  | none ↦ []
]

filename_of : Texts → Text → Option Text
filename_of texts headers = search texts false false (codes "filename=" ++ (34 ∷ [])) headers

-- The local variables of the parser, and the world `U` that `open_file` and the file's `write` change.
pub record Scan (U : Type 0) : Type 0 where
  pub path_val : Option Text
  pub filename : Option Text
  pub size : ℕ
  file_seen : Bool
  pub fh : Option Text
  pub world : U

-- `open_file`, which gives a handle, and `fh.write`.
pub record Opener (U : Type 0) : Type 0 where
  pub open_file : Option Text → U → Result U (Text × U)
  pub write : Text → Bytes → U → Result U U

-- An error with the world as it is then, put into the parser's state.
abbrev pub in_scan :
    {U A B : Type 0} → Scan U → Result U A → (A → Result (Scan U) B) → Result (Scan U) B
in_scan s (ok a) f = f a
in_scan s (err e u) f = err e (record s { world = u })

-- An error of a sink whose state is of no use any more.
abbrev pub or_error :
    {S U A B : Type 0} → Scan U → Result S A → (A → Result (Scan U) B) → Result (Scan U) B
or_error s (ok a) f = f a
or_error s (err e st) f = err e s

module _ {U : Type 0} (texts : Texts) (opener : Opener U) (fuel : ℕ) (delim : Bytes) where
  abbrev Step : Type 0
  Step = Result (Scan U) (BodyReader × Scan U)

  -- The field `path`, of 4096 bytes at most.
  pub path_field : BodyReader → Scan U → Step
  path_field br s =
      or_error s (stream_value delim (cap_sink 4096) fuel br [])
        λ p. ok (p.0, record s { path_val = some (texts.decode p.1) })

  abbrev count_written : ℕ → Result U U → Result (U × ℕ) (U × ℕ)
  count_written n (ok u) = ok (u, n)
  count_written n (err e u) = err e (u, n)

  -- `_sink`: the bytes are counted and written.
  pub file_sink : Text → Bytes → U × ℕ → Result (U × ℕ) (U × ℕ)
  file_sink fh b (u, n) = count_written (n + length b) (opener.write fh b u)

  abbrev file_error : {A : Type 0} → Scan U → Result (U × ℕ) A → (A → Step) → Step
  file_error s (ok a) f = f a
  file_error s (err e (u, n)) f = err e (record s { world = u })

  pub stream_file : Text → BodyReader → Scan U → Step
  stream_file fh br s =
      file_error s (stream_value delim (file_sink fh) fuel br (s.world, 0))
        λ p. ok (p.0, record s { world = p.1.0; size = p.1.1; file_seen = true })

  -- `open_file(path_val)`, unless a file was opened before.
  pub open_once : Scan U → (Text → Scan U → Step) → Step
  open_once s f = elim s.fh [
    | some fh ↦ f fh s
    | none ↦
        in_scan s (opener.open_file s.path_val s.world)
          λ p. f p.0 (record s { fh = some p.0; world = p.1 })
  ]

  -- The field `file`. The file name stays when a later field has none.
  pub file_field : Text → BodyReader → Scan U → Step
  file_field headers br s =
      let found : Option Text = elim (filename_of texts headers) [
        | some v ↦ some v
        | none ↦ s.filename
      ] in
      open_once (record s { filename = found }) λ fh s'. stream_file fh br s'

  -- Any other field is read and dropped.
  pub other_field : BodyReader → Scan U → Step
  other_field br s =
      or_error s (stream_value delim (λ b (st : Unit {0}). ok st) fuel br tt) λ p. ok (p.0, s)

  pub field : Text → BodyReader → Scan U → Step
  field headers br s =
      let name = name_of texts headers in
      if eqb name (codes "path")
      then path_field br s
      else if eqb name (codes "file")
      then file_field headers br s
      else other_field br s

  pub after_headers :
      (BodyReader → Scan U → Result (Scan U) (Scan U))
      → Bytes
      → BodyReader
      → Scan U
      → Result (Scan U) (Scan U)
  after_headers next headers br s = field (texts.decode headers) br s >>= λ p. next p.0 p.1

  -- A round of the loop.
  pub parse_round :
      (BodyReader → Scan U → Result (Scan U) (Scan U))
      → BodyReader
      → Scan U
      → Result (Scan U) (Scan U)
  parse_round next br s =
      let filled = fill 2 br in
      if length filled.buf == 0
      then err truncated_boundary s
      else if starts_with (codes "--") filled.buf
      then ok s
      else if starts_with (13 ∷ 10 ∷ []) filled.buf
      then (read_headers s fuel (skip 2 filled) >>= λ p. after_headers next p.0 p.1 s)
      else err malformed s

  pub parse_fields : ℕ → BodyReader → Scan U → Result (Scan U) (Scan U)
  parse_fields zero br s = err out_of_fuel s
  parse_fields (suc rounds) br s = parse_round (parse_fields rounds) br s

abbrev pub new_scan : {U : Type 0} → U → Scan U
new_scan u = record {
  path_val = none;
  filename = none;
  size = 0;
  file_seen = false;
  fh = none;
  world = u;
}

-- `parse_multipart_stream`. Each loop takes a byte of the body in a round.
pub parse_multipart_stream :
    {U : Type 0} → Texts → Opener U → Bytes → ℕ → Bytes → U → Result (Scan U) (Scan U)
parse_multipart_stream texts opener rfile content_length boundary u =
    let start = fill (length boundary + 4) (new_reader rfile content_length) in
    let fuel = 2 * content_length + 2 in
    if starts_with (codes "--" ++ boundary) start.buf
    then parse_fields texts opener fuel (13 ∷ 10 ∷ (codes "--" ++ boundary)) fuel
        (skip (length boundary + 2) start) (new_scan u)
    else err malformed (new_scan u)
