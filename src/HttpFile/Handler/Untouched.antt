-- ===== src/HttpFile/Handler/Untouched.antt =====
-- socket_server/http_file.py, lines 290 to 372: the calls of the disk that an upload makes, and a file of another
-- name.
use socket_server.Prelude.{
  either, ◌≡◌, ◌∙◌, subst, inl, inr, false, Option, none, some, [], ◌∷◌, ◌++◌, arith, Option-cases,
  take,
}
use socket_server.Prelude.Bytes.{Bytes, Text, eqb}
use socket_server.Prelude.Dict.{Dict, lookup, insert, erase, lookup-insert, lookup-erase}
use socket_server.HttpFile.Reader.{Result}
use socket_server.HttpFile.Reader.Keeps.{Holds}
use socket_server.HttpFile.Handler.{
  Disk, next_fault, Upload, part_of, or_os_error, Paths, open_part, open_temp, open_new, open_file,
  write, unlink, discard_upload, replace, end_copy, copy_bytes, copy_over, or_copy, move, moved,
}

-- A name that no upload uses for a file in progress.
pub record IsPlain (paths : Paths) (q : Text) : Type 0 where
  pub no_part : (dest : Text) → eqb q (part_of dest) ≡ false
  pub no_temp : eqb q paths.temp_name ≡ false

module _ (paths : Paths) (q : Text) (plain : IsPlain paths q) (held : Option Bytes) where
  abbrev pub Other : Text → Type 0
  Other name = eqb q name ≡ false

  abbrev pub OtherIf : Option Text → Type 0
  OtherIf none = Unit
  OtherIf (some name) = eqb q name ≡ false

  abbrev pub Same : Disk → Type 0
  Same d = lookup q d.files ≡ held

  -- The file `q` is as it was, and the files of the upload are others.
  pub record Untouched (up : Upload) : Type 0 where
    pub same : Same up.disk
    pub fh : OtherIf up.fh
    pub part : OtherIf up.part
    pub temp : OtherIf up.temp

  pub next_fault-Same : (d : Disk) → Same d → Same (next_fault d).1
  next_fault-Same d h = ground arith

  or_os_error-Holds :
      (up : Upload) (f : Upload → Result Upload (Text × Upload))
      → Untouched up
      → ((up' : Upload) → Untouched up' → Holds Untouched (λ p. Other p.0 × Untouched p.1) (f up'))
      → Holds Untouched (λ p. Other p.0 × Untouched p.1) (or_os_error up f)
  unfolding or_os_error
  or_os_error-Holds up f h k =
      let kept : Untouched (record up { disk = (next_fault up.disk).1 }) = record {
        same = next_fault-Same up.disk h.same;
        fh = h.fh;
        part = h.part;
        temp = h.temp;
      } in
      either (Holds Untouched (λ p. Other p.0 × Untouched p.1)) (next_fault up.disk).0 _ _ kept
        (k _ kept)

  inserted :
      (name : Text) (b : Bytes) (files : Dict Bytes)
      → Other name
      → lookup q files ≡ held
      → lookup q (insert name b files) ≡ held
  inserted name b files other h = lookup-insert q name b files ∙ rw other h

  erased :
      (name : Text) (files : Dict Bytes)
      → Other name
      → lookup q files ≡ held
      → lookup q (erase name files) ≡ held
  erased name files other h = lookup-erase q name files ∙ rw other h

  abbrev OpenedHolds : Result Upload (Text × Upload) → Type 0
  OpenedHolds = Holds Untouched (λ p. Other p.0 × Untouched p.1)

  open_part-Holds :
      (path : Text) (up : Upload) → Untouched up → OpenedHolds (open_part paths path up)
  unfolding open_part
  open_part-Holds path up h =
      let other = plain.no_part (paths.normalize path) in
      or_os_error-Holds up _ h λ made h₁. or_os_error-Holds made _ h₁ λ opened h₂. (
        other,
        record {
          same = inserted _ [] opened.disk.files other h₂.same;
          fh = other;
          part = other;
          temp = h₂.temp;
        },
      )

  open_temp-Holds : (up : Upload) → Untouched up → OpenedHolds (open_temp paths up)
  unfolding open_temp
  open_temp-Holds up h = or_os_error-Holds up _ h λ opened k. (
    plain.no_temp,
    record {
      same = inserted paths.temp_name [] opened.disk.files plain.no_temp k.same;
      fh = plain.no_temp;
      part = k.part;
      temp = plain.no_temp;
    },
  )

  open_new-Holds :
      (path : Option Text) (up : Upload) → Untouched up → OpenedHolds (open_new paths path up)
  unfolding open_new
  open_new-Holds none up h = open_temp-Holds up h
  open_new-Holds (some []) up h = open_temp-Holds up h
  open_new-Holds (some (c ∷ cs)) up h = open_part-Holds (c ∷ cs) up h

  pub open_file-Holds :
      (path : Option Text) (up : Upload) → Untouched up → OpenedHolds (open_file paths path up)
  unfolding open_file
  open_file-Holds path up h = elim (Option-cases up.fh) [
    | inl closed ↦ rw (closed, open_file) (open_new-Holds path up h)
    | inr (fh, known) ↦ rw (known, open_file) (subst OtherIf known h.fh, h)
  ]

  pub write-Holds :
      (fh : Text) (b : Bytes) (up : Upload)
      → Other fh
      → Untouched up
      → Holds Untouched Untouched (write paths fh b up)
  unfolding write
  write-Holds fh b up other h =
      let d = (next_fault up.disk).1 in
      let same : Same d = next_fault-Same up.disk h.same in
      let kept : Untouched (record up { disk = d }) = record {
        same = same;
        fh = h.fh;
        part = h.part;
        temp = h.temp;
      } in
      either (Holds Untouched Untouched) (next_fault up.disk).0 _ _ kept
        (elim (Option-cases (lookup fh d.files)) [
          | inl gone ↦ rw (gone, write) kept
          | inr (bytes, known) ↦
              rw (known, write)
                (record {
                  same = inserted fh (bytes ++ b) d.files other same;
                  fh = h.fh;
                  part = h.part;
                  temp = h.temp;
                })
        ])

  unlink-Same : (name : Option Text) (d : Disk) → OtherIf name → Same d → Same (unlink name d)
  unfolding unlink
  unlink-Same none d other h = h
  unlink-Same (some name) d other h =
      let same = next_fault-Same d h in
      either Same (next_fault d).0 _ _ same (erased name (next_fault d).1.files other same)

  pub discard_upload-Same : (up : Upload) → Untouched up → Same (discard_upload up).disk
  unfolding discard_upload
  discard_upload-Same up h =
      unlink-Same up.temp _ h.temp (unlink-Same up.part up.disk h.part h.same)

  -- A call that may change `late` if it fails, and `dest` if it goes well.
  abbrev pub MoveHolds : Text → Option Text → Option Disk × Disk → Type 0
  MoveHolds dest late (some d, _) = Other dest → Same d
  MoveHolds dest late (none, d) = OtherIf late → Same d

  pub replace-Holds :
      (src dest : Text) (d : Disk) → Other src → Same d → MoveHolds dest none (replace src dest d)
  unfolding replace
  replace-Holds src dest d other h =
      let d' = (next_fault d).1 in
      let same : Same d' = next_fault-Same d h in
      either (MoveHolds dest none) (next_fault d).0 _ _ (λ u. same)
        (elim (Option-cases (lookup src d'.files)) [
          | inl gone ↦ rw (gone, replace) (λ u. same)
          | inr (bytes, known) ↦
              rw (known, replace)
                (λ k. inserted dest bytes (erase src d'.files) k (erased src d'.files other same))
        ])

  end_copy-Holds :
      (src dest : Text) (d : Disk)
      → Other src
      → (Other dest → Same d)
      → MoveHolds dest (some dest) (end_copy src d)
  unfolding end_copy
  end_copy-Holds src dest d other h =
      let d₁ = (next_fault d).1 in
      let d₂ = (next_fault d₁).1 in
      either (MoveHolds dest (some dest)) (next_fault d).0 _ _ (λ k. next_fault-Same d (h k))
        (either (MoveHolds dest (some dest)) (next_fault d₁).0 _ _
          (λ k. next_fault-Same d₁ (next_fault-Same d (h k)))
          (λ k. erased src d₂.files other (next_fault-Same d₁ (next_fault-Same d (h k)))))

  copy_bytes-Holds :
      (src dest : Text) (bytes : Bytes) (d : Disk)
      → Other src
      → (Other dest → Same d)
      → MoveHolds dest (some dest) (copy_bytes src dest bytes d)
  unfolding copy_bytes
  copy_bytes-Holds src dest bytes d other h =
      let d' = (next_fault d).1 in
      either (MoveHolds dest (some dest)) (next_fault d).0 _ _
        (λ k. inserted dest (take d'.copied bytes) d'.files k (next_fault-Same d (h k)))
        (end_copy-Holds src dest (record d' { files = insert dest bytes d'.files }) other
          (λ k. inserted dest bytes d'.files k (next_fault-Same d (h k))))

  copy_over-Holds :
      (src dest : Text) (d : Disk)
      → Other src
      → Same d
      → MoveHolds dest (some dest) (copy_over src dest d)
  unfolding copy_over
  copy_over-Holds src dest d other h =
      let d' = (next_fault d).1 in
      let same : Same d' = next_fault-Same d h in
      either (MoveHolds dest (some dest)) (next_fault d).0 _ _ (λ k. same)
        (elim (Option-cases (lookup src d'.files)) [
          | inl gone ↦ rw (gone, copy_over) (λ k. same)
          | inr (bytes, known) ↦
              rw (known, copy_over)
                (copy_bytes-Holds src dest bytes (record d' { files = insert dest [] d'.files })
                  other (λ k. inserted dest [] d'.files k same))
        ])

  or_copy-Holds :
      (src dest : Text) (r : Option Disk × Disk)
      → Other src
      → MoveHolds dest none r
      → MoveHolds dest (some dest) (or_copy src dest r)
  or_copy-Holds src dest (some moved, d) other h = h
  or_copy-Holds src dest (none, d) other h = copy_over-Holds src dest d other (h tt)

  pub move-Holds :
      (src dest : Text) (d : Disk)
      → Other src
      → Same d
      → MoveHolds dest (some dest) (move src dest d)
  unfolding move
  move-Holds src dest d other h =
      or_copy-Holds src dest (replace src dest d) other (replace-Holds src dest d other h)
