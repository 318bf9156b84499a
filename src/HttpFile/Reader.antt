-- ===== src/HttpFile/Reader.antt =====
-- socket_server/http_file.py, lines 27 to 116: `_BodyReader`, which reads a body of known length
-- through a buffer, and `_CapSink`. `rfile` is what the connection will still give: its `read(n)`
-- waits for n bytes, so it gives less only at the end.
pub mod Fill
pub mod Find
pub mod Split
pub mod Stream
pub mod Keeps
pub mod Ends
use socket_server.Prelude.{
  ℕ, zero, suc, ◌+◌, ◌-◌, min, Bool, true, false, ◌&&◌, ◌||◌, Option, none, some, [], ◌∷◌, ◌++◌,
  map, ltb, ◌==◌, if◌then◌else◌, length, take, drop,
}
use socket_server.Prelude.Bytes.{Bytes, codes, eqb, starts_with}
use mathlib.Core.Option

pub record BodyReader : Type 0 where
  pub rfile : Bytes
  pub remaining : ℕ
  pub buf : Bytes

-- `_BodyReader.CHUNK`
pub chunk_size : ℕ
chunk_size = 262144

-- What the parser raises, and what the calls under it raise.
pub data Error : Type 0 where
  headers_too_large truncated_headers truncated_value truncated_boundary : Error
  malformed field_too_large : Error
  os_error : Error
  out_of_fuel : Error

-- An exception leaves the sink's state as it was then.
pub data Result (S A : Type 0) : Type 0 where
  ok : A → Result S A
  err : Error → S → Result S A

infixl 5 ◌>>=◌
abbrev pub ◌>>=◌ : {S A B : Type 0} → Result S A → (A → Result S B) → Result S B
ok a >>= f = f a
err e st >>= f = err e st

abbrev pub new_reader : Bytes → ℕ → BodyReader
new_reader rfile len = record { rfile = rfile; remaining = len; buf = [] }

-- One `rfile.read(min(self.CHUNK, self.remaining))`: an empty chunk ends the body.
abbrev read_chunk : BodyReader → Bytes
read_chunk br = take (min chunk_size br.remaining) br.rfile

abbrev with_chunk : BodyReader → Bytes → BodyReader
with_chunk br chunk = record {
  rfile = drop (min chunk_size br.remaining) br.rfile;
  remaining = br.remaining - length chunk;
  buf = br.buf ++ chunk;
}

-- The loop of `fill`. It takes a byte of the body in each round, so the body's length is enough fuel.
pub fill_round : (BodyReader → BodyReader) → BodyReader → Bytes → BodyReader
fill_round next br [] = record br { remaining = 0 }
fill_round next br (b ∷ bs) = next (with_chunk br (b ∷ bs))

pub fill_loop : ℕ → ℕ → BodyReader → BodyReader
fill_loop zero need br = br
fill_loop (suc fuel) need br = elim (ltb (length br.buf) need && ltb 0 br.remaining) [
  | false ↦ br
  | true ↦ fill_round (fill_loop fuel need) br (read_chunk br)
]

pub fill : ℕ → BodyReader → BodyReader
fill need br = fill_loop (suc br.remaining) need br

-- `take(n)` without its result, which the parser does not use.
pub skip : ℕ → BodyReader → BodyReader
skip n br = record br { buf = drop n br.buf }

-- `bytes.find`: the first position where `d` begins.
pub find : Bytes → Bytes → Option ℕ
find d [] = if starts_with d [] then some 0 else none
find d (x ∷ xs) = if starts_with d (x ∷ xs) then some 0 else Option.map suc (find d xs)

-- CR LF CR LF, the end of a part's headers.
abbrev pub blank_line : Bytes
blank_line = 13 ∷ 10 ∷ 13 ∷ 10 ∷ []

-- `read_headers`: the headers of a part, and the reader at its value.
pub read_headers : {S : Type 0} → S → ℕ → BodyReader → Result S (Bytes × BodyReader)
read_headers st zero br = err out_of_fuel st
read_headers st (suc fuel) br = elim (find blank_line br.buf) [
  | some idx ↦ ok (take idx br.buf, record br { buf = drop (idx + 4) br.buf })
  | none ↦
      let before = length br.buf in
      let filled = fill (before + 8192) br in
      if ltb 16384 before then err headers_too_large st else elim (length filled.buf == before) [
        | true ↦ err truncated_headers st
        | false ↦ read_headers st fuel filled
      ]
]

-- Behind a delimiter stands "--", CR LF or LF; anything else shows that it is content.
pub is_tail : Bytes → Bool
is_tail tail =
    eqb (take 2 tail) (codes "--")
    || (eqb (take 2 tail) (13 ∷ 10 ∷ []) || eqb (take 1 tail) (10 ∷ []))

module _ {S : Type 0} (delim : Bytes) (sink : Bytes → S → Result S S) where
  abbrev pub keep : ℕ
  keep = length delim + 1

  -- All but the last bytes go out; a delimiter may begin in those.
  pub flush : BodyReader → S → Result S (BodyReader × S)
  flush br st =
      if ltb keep (length br.buf)
      then (do
        st' ← sink (take (length br.buf - keep) br.buf) st
        ok (record br { buf = drop (length br.buf - keep) br.buf }, st'))
      else ok (br, st)

  -- Read on; nothing more means that the value has no end.
  pub refill :
      (BodyReader → S → Result S (BodyReader × S)) → BodyReader → S → Result S (BodyReader × S)
  refill next br st =
      let filled = fill (length br.buf + chunk_size) br in
      elim (length filled.buf == length br.buf) [
        | true ↦ err truncated_value st
        | false ↦ next filled st
      ]

  pub read_on :
      (BodyReader → S → Result S (BodyReader × S)) → BodyReader → S → Result S (BodyReader × S)
  read_on next br st = flush br st >>= λ p. refill next p.0 p.1

  -- The body of the loop at a delimiter that begins at `idx`.
  pub at_delim :
      (BodyReader → S → Result S (BodyReader × S)) → ℕ → BodyReader → S → Result S (BodyReader × S)
  at_delim next idx br st =
      let end = idx + length delim in
      if is_tail (take 2 (drop end br.buf))
      then (do st' ← sink (take idx br.buf) st; ok (record br { buf = drop end br.buf }, st'))
      else if ltb (end + 2) (length br.buf)
      then (do st' ← sink (take end br.buf) st; next (record br { buf = drop end br.buf }) st')
      else read_on next br st

  -- `stream_value`: a field's value goes to the sink up to the next delimiter.
  pub stream_value : ℕ → BodyReader → S → Result S (BodyReader × S)
  stream_value zero br st = err out_of_fuel st
  stream_value (suc fuel) br st = elim (find delim br.buf) [
    | some idx ↦ at_delim (stream_value fuel) idx br st
    | none ↦ read_on (stream_value fuel) br st
  ]

-- `_CapSink`: the parts are joined here at once; more than `cap` bytes are refused.
pub cap_sink : ℕ → Bytes → Bytes → Result Bytes Bytes
cap_sink cap b parts =
    if ltb cap (length parts + length b) then err field_too_large parts else ok (parts ++ b)
