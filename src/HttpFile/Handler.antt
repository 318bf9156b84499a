-- ===== src/HttpFile/Handler.antt =====
-- socket_server/http_file.py, lines 209 to 382: the files of an upload, `do_GET` and `do_POST`. The disk holds
-- the bytes of each file by its real path; directories are left out (no destination is one), but the calls that make them can fail.
pub mod Untouched
pub mod Safety
pub mod Ended
pub mod Download
use socket_server.Prelude.{
  ℕ, zero, suc, ◌-◌, min, Bool, true, false, Option, none, some, List, [], ◌∷◌, ◌++◌, ◌==◌,
  if◌then◌else◌, length, take,
}
use socket_server.Prelude.Bytes.{Bytes, Text, codes}
use socket_server.Prelude.Int.{ℤ, pos, negsuc}
use socket_server.Prelude.Dict.{Dict, lookup, insert, erase}
use socket_server.HttpFile.Reader.{Error, os_error, Result, ok, err, ◌>>=◌}
use socket_server.HttpFile.Multipart.{
  Texts, boundary_from_content_type, Scan, Opener, parse_multipart_stream,
}

-- The disk, and what the next calls of it do: `true` raises OSError; without an entry the call goes well.
-- `copied` is how many bytes a copy writes before it fails.
pub record Disk : Type 0 where
  pub files : Dict Bytes
  pub faults : List Bool
  pub copied : ℕ

-- The next call.
abbrev pub next_fault : Disk → Bool × Disk
next_fault d = elim d.faults [ [] ↦ (false, d) | b ∷ bs ↦ (b, record d { faults = bs }) ]

-- `up` of `do_POST`; a handle is the name of its file.
pub record Upload : Type 0 where
  pub disk : Disk
  pub fh : Option Text
  pub part : Option Text
  pub temp : Option Text
  pub dest : Option Text

abbrev pub part_of : Text → Text
part_of dest = dest ++ codes ".part"

-- A call that raises, or goes on.
pub or_os_error : Upload → (Upload → Result Upload (Text × Upload)) → Result Upload (Text × Upload)
or_os_error up f =
    let (failed, d) = next_fault up.disk in
    if failed then err os_error (record up { disk = d }) else f (record up { disk = d })

-- `realpath`, and the name that `mkstemp` gives.
pub record Paths : Type 0 where
  pub normalize : Text → Text
  pub temp_name : Text

module _ (paths : Paths) where
  open paths use {normalize, temp_name}

  -- `<dest>.part` in the directory of the path, which is made if need be.
  pub open_part : Text → Upload → Result Upload (Text × Upload)
  open_part path up =
      let dest = normalize path in
      or_os_error up λ made. or_os_error made λ opened. ok (
        part_of dest,
        record {
          disk = record opened.disk { files = insert (part_of dest) [] opened.disk.files };
          fh = some (part_of dest);
          part = some (part_of dest);
          temp = opened.temp;
          dest = some dest;
        },
      )

  pub open_temp : Upload → Result Upload (Text × Upload)
  open_temp up = or_os_error up λ opened. ok (
    temp_name,
    record {
      disk = record opened.disk { files = insert temp_name [] opened.disk.files };
      fh = some temp_name;
      part = opened.part;
      temp = some temp_name;
      dest = opened.dest;
    },
  )

  pub open_new : Option Text → Upload → Result Upload (Text × Upload)
  open_new (some (c ∷ cs)) up = open_part (c ∷ cs) up
  open_new _ up = open_temp up

  pub open_file : Option Text → Upload → Result Upload (Text × Upload)
  open_file path_val up = elim up.fh [ some fh ↦ ok (fh, up) | none ↦ open_new path_val up ]

  -- `fh.write`: the bytes go to the end of the file.
  pub write : Text → Bytes → Upload → Result Upload Upload
  write fh b up =
      let (failed, d) = next_fault up.disk in
      if failed then err os_error (record up { disk = d }) else elim (lookup fh d.files) [
        | none ↦ ok (record up { disk = d })
        | some held ↦ ok (record up { disk = record d { files = insert fh (held ++ b) d.files } })
      ]

  abbrev pub opener : Opener Upload
  opener = record { open_file = open_file; write = write }

-- `os.unlink`, whose failure is ignored.
pub unlink : Option Text → Disk → Disk
unlink none d = d
unlink (some p) d =
    let (failed, d') = next_fault d in if failed then d' else record d' { files = erase p d'.files }

-- `_discard_upload`
pub discard_upload : Upload → Upload
discard_upload up = record {
  disk = unlink up.temp (unlink up.part up.disk);
  fh = none;
  part = none;
  temp = none;
  dest = up.dest;
}

-- `os.replace`, the rename of one file over another; a file that is not there is an OSError.
pub replace : Text → Text → Disk → Option Disk × Disk
replace src dest d =
    let (failed, d') = next_fault d in
    if failed then (none, d') else elim (lookup src d'.files) [
      | none ↦ (none, d')
      | some held ↦ (some (record d' { files = insert dest held (erase src d'.files) }), d')
    ]

-- The end of a copy: it gets the times of the file, which is removed.
pub end_copy : Text → Disk → Option Disk × Disk
end_copy src d =
    let (no_times, d₁) = next_fault d in
    let (stays, d₂) = next_fault d₁ in
    if no_times
    then (none, d₁)
    else if stays
    then (none, d₂)
    else (some (record d₂ { files = erase src d₂.files }), d₂)

-- The copy of the bytes into the destination, which is open and empty. It may fail on its way.
pub copy_bytes : Text → Text → Bytes → Disk → Option Disk × Disk
copy_bytes src dest held d =
    let (cut, d') = next_fault d in
    if cut
    then (none, record d' { files = insert dest (take d'.copied held) d'.files })
    else end_copy src (record d' { files = insert dest held d'.files })

pub copy_over : Text → Text → Disk → Option Disk × Disk
copy_over src dest d =
    let (failed, d') = next_fault d in
    if failed then (none, d') else elim (lookup src d'.files) [
      | none ↦ (none, d')
      | some held ↦ copy_bytes src dest held (record d' { files = insert dest [] d'.files })
    ]

abbrev pub or_copy : Text → Text → Option Disk × Disk → Option Disk × Disk
or_copy src dest (some moved, d) = (some moved, d)
or_copy src dest (none, d) = copy_over src dest d

-- `shutil.move`: a file that cannot be renamed, as to another disk, is copied and removed.
pub move : Text → Text → Disk → Option Disk × Disk
move src dest d = or_copy src dest (replace src dest d)

-- How a request ends: an answer with its code, or an exception that no handler catches.
pub data Answer : Type 0 where
  stored : Text → ℕ → Answer
  refused : ℕ → Answer
  crashed : Answer

-- An OSError is answered with 500, a ValueError with 400.
abbrev error_code : Error → ℕ
error_code os_error = 500
error_code _ = 400

-- A move that failed is answered with 500, after the files are cleared away.
pub moved : Text → ℕ → Upload → Option Disk × Disk → Answer × Disk
moved dest size up (some d, _) = (stored dest size, d)
moved dest size up (none, d) = (refused 500, (discard_upload (record up { disk = d })).disk)

module _ (paths : Paths) (texts : Texts) where
  open paths use {normalize}

  -- The last step: the temporary file is moved, its directory made before, or the part is renamed.
  -- Without either, `os.replace(None, …)` is a TypeError.
  pub store : Text → ℕ → Upload → Answer × Disk
  store dest size up = elim up.temp [
    | some temp ↦
        let (failed, d) = next_fault up.disk in
        if failed
        then (refused 500, (discard_upload (record up { disk = d })).disk)
        else moved dest size up (move temp dest d)
    | none ↦ elim up.part [
      | some part ↦ moved dest size up (replace part dest up.disk)
      | none ↦ (crashed, up.disk)
    ]
  ]

  pub finish : Option Text → ℕ → Upload → Answer × Disk
  finish (some (c ∷ cs)) size up = store (normalize (c ∷ cs)) size up
  finish _ size up = (refused 400, (discard_upload up).disk)

  -- What follows the parser.
  pub after_parse : Result (Scan Upload) (Scan Upload) → Answer × Disk
  after_parse (ok s) = finish s.path_val s.size (record s.world { fh = none })
  after_parse (err e s) = (refused (error_code e), (discard_upload s.world).disk)

  -- `do_POST`: the length is none if it is no number, and 0 if it is not given.
  pub do_post : Option ℤ → Text → Bytes → Disk → Answer × Disk
  do_post none content_type rfile d = (refused 400, d)
  do_post (some (negsuc n)) content_type rfile d = (refused 400, d)
  do_post (some (pos zero)) content_type rfile d = (refused 400, d)
  do_post (some (pos (suc n))) content_type rfile d =
      elim (boundary_from_content_type texts content_type) [
        | none ↦ (refused 400, d)
        | some boundary ↦ after_parse (
            parse_multipart_stream texts (opener paths) rfile (suc n) boundary
              (record { disk = d; fh = none; part = none; temp = none; dest = none }))
      ]

-- A reader of an open file that other programs may change: what each `read(n)` gives. `writable` is how
-- many more writes the client takes.
pub record Transfer : Type 0 where
  pub reads : List Bytes
  pub writable : ℕ
  pub wfile : Bytes

-- The loop of `do_GET`: a megabyte at a time, and never more than the size announced.
pub send_file : ℕ → ℕ → Transfer → Transfer
send_file zero left d = d
send_file (suc fuel) left d = if left == 0 then d else elim d.reads [
  | [] ↦ d
  | r ∷ rs ↦
      let chunk = take (min 1048576 left) r in
      if length chunk == 0 then d else elim d.writable [
        | zero ↦ d
        | suc w ↦
            send_file fuel (left - length chunk)
              (record { reads = rs; writable = w; wfile = d.wfile ++ chunk })
      ]
]

-- How `do_GET` is answered: an error, or the size that the headers announce and what was sent.
pub data Served : Type 0 where
  not_served : ℕ → Served
  served : ℕ → Bytes → Served

-- `do_GET`, with the path of the query (empty if missing), whether it names a file, its size (none: OSError)
-- and the reads that the open file gives.
pub do_get : Text → Bool → Option ℕ → List Bytes → ℕ → Served
do_get [] is_file size reads writable = not_served 400
do_get (c ∷ cs) false size reads writable = not_served 404
do_get (c ∷ cs) true none reads writable = not_served 500
do_get (c ∷ cs) true (some size) reads writable =
    served size
      (send_file size size (record { reads = reads; writable = writable; wfile = [] })).wfile
