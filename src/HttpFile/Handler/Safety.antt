-- ===== src/HttpFile/Handler/Safety.antt =====
-- socket_server/http_file.py, lines 290 to 372: the files that an upload touches.
use socket_server.Prelude.{
  either, ℕ, zero, suc, ◌≡◌, refl, subst, inl, inr, false, Option, none, some, [], ◌∷◌,
  Option-cases,
}
use socket_server.Prelude.Bytes.{Bytes, Text, eqb}
use socket_server.Prelude.Int.{ℤ, pos, negsuc}
use socket_server.Prelude.Dict.{lookup}
use socket_server.HttpFile.Reader.{Result, ok, err}
use socket_server.HttpFile.Reader.Keeps.{Holds}
use socket_server.HttpFile.Multipart.{
  Texts, boundary_from_content_type, Scan, parse_multipart_stream,
}
use socket_server.HttpFile.Multipart.Keeps.{ScanHolds, parse_multipart_stream-Holds}
use socket_server.HttpFile.Handler.{
  Disk, next_fault, Upload, Paths, opener, replace, move, Answer, stored, refused, crashed, moved,
  store, finish, after_parse, do_post,
}
use socket_server.HttpFile.Handler.Untouched.{
  IsPlain, Other, OtherIf, Same, Untouched, next_fault-Same, discard_upload-Same, replace-Holds,
  move-Holds, open_file-Holds, write-Holds, MoveHolds,
}

-- Where the temporary file of an upload is moved to: nowhere without one, without a path, or after an error
-- of the parser.
abbrev pub late_to : Text → Option Text → Option Text
late_to dest none = none
late_to dest (some temp) = some dest

abbrev pub late_from : Paths → Option Text → Option Text → Option Text
late_from paths (some (c ∷ cs)) temp = late_to (paths.normalize (c ∷ cs)) temp
late_from paths _ temp = none

abbrev pub late_of : Paths → Result (Scan Upload) (Scan Upload) → Option Text
late_of paths (ok s) = late_from paths s.path_val s.world.temp
late_of paths (err e s) = none

module _ (paths : Paths) (q : Text) (plain : IsPlain paths q) (held : Option Bytes) where
  -- What an answer says of `q`: a stored upload may be `q` itself, and a refused one may have been on its way
  -- to `q`, by a move to `late`.
  abbrev pub Leaves : Option Text → Answer × Disk → Type 0
  Leaves late (stored dest size, d) = eqb q dest ≡ false → lookup q d.files ≡ held
  Leaves late (refused code, d) = OtherIf paths q plain held late → lookup q d.files ≡ held
  Leaves late (crashed, d) = lookup q d.files ≡ held

  moved-Leaves :
      (dest : Text) (late : Option Text) (size : ℕ) (up : Upload) (r : Option Disk × Disk)
      → Untouched paths q plain held up
      → MoveHolds paths q plain held dest late r
      → Leaves late (moved dest size up r)
  unfolding moved
  moved-Leaves dest late size up (some d, _) h k = k
  moved-Leaves dest late size up (none, d) h k = λ other.
      discard_upload-Same paths q plain held (record up { disk = d })
        (record { same = k other; fh = h.fh; part = h.part; temp = h.temp })

  module _ (texts : Texts) where
    store-Leaves :
        (dest : Text) (size : ℕ) (up : Upload)
        → Untouched paths q plain held up
        → Leaves (late_to dest up.temp) (store paths texts dest size up)
    unfolding store
    store-Leaves dest size up h = elim (Option-cases up.temp) [
      | inr (temp, known) ↦
          let d = (next_fault up.disk).1 in
          let same : Same paths q plain held d =
            next_fault-Same paths q plain held up.disk h.same in
          rw (known, store)
            (either (Leaves (some dest)) (next_fault up.disk).0 _ _
              (λ k.
                discard_upload-Same paths q plain held (record up { disk = d })
                  (record { same = same; fh = h.fh; part = h.part; temp = h.temp }))
              (moved-Leaves dest (some dest) size up (move temp dest d) h (
                move-Holds paths q plain held temp dest d
                  (subst (OtherIf paths q plain held) known h.temp) same)))
      | inl without ↦
          rw (without, store)
            (elim (Option-cases up.part) [
              | inr (part, known) ↦
                  rw (known, store)
                    (moved-Leaves dest none size up (replace part dest up.disk) h (
                      replace-Holds paths q plain held part dest up.disk
                        (subst (OtherIf paths q plain held) known h.part) h.same))
              | inl nothing ↦ rw (nothing, store) h.same
            ])
    ]

    finish-Leaves :
        (path : Option Text) (size : ℕ) (up : Upload)
        → Untouched paths q plain held up
        → Leaves (late_from paths path up.temp) (finish paths texts path size up)
    unfolding finish
    finish-Leaves none size up h = λ k. discard_upload-Same paths q plain held up h
    finish-Leaves (some []) size up h = λ k. discard_upload-Same paths q plain held up h
    finish-Leaves (some (c ∷ cs)) size up h = store-Leaves _ size up h

    after_parse-Leaves :
        (r : Result (Scan Upload) (Scan Upload))
        → Holds
            (λ s. Untouched paths q plain held s.world)
            (λ s. Untouched paths q plain held s.world)
            r
        → Leaves (late_of paths r) (after_parse paths texts r)
    unfolding after_parse
    after_parse-Leaves (ok s) h =
        finish-Leaves s.path_val s.size (record s.world { fh = none })
          (record { same = h.same; fh = tt; part = h.part; temp = h.temp })
    after_parse-Leaves (err e s) h = λ k. discard_upload-Same paths q plain held s.world h

module _ (paths : Paths) (texts : Texts) where
  parsed-Untouched :
      (q : Text) (held : Option Bytes) (r : Result (Scan Upload) (Scan Upload))
      (plain : IsPlain paths q)
      → Holds
          (λ s.
            ScanHolds texts
              (opener paths)
              (Untouched paths q plain held)
              (Other paths q plain held)
              (open_file-Holds paths q plain held)
              (write-Holds paths q plain held)
              s)
          (λ s.
            ScanHolds texts
              (opener paths)
              (Untouched paths q plain held)
              (Other paths q plain held)
              (open_file-Holds paths q plain held)
              (write-Holds paths q plain held)
              s)
          r
      → Holds
          (λ s. Untouched paths q plain held s.world)
          (λ s. Untouched paths q plain held s.world)
          r
  parsed-Untouched q held (ok s) plain h = h.0
  parsed-Untouched q held (err e s) plain h = h.0

  -- The destination that a request's temporary file is moved to, if it gets so far.
  abbrev pub late_target : Option ℤ → Text → Bytes → Disk → Option Text
  late_target (some (pos (suc n))) content_type rfile d =
      elim (boundary_from_content_type texts content_type) [
        | none ↦ none
        | some boundary ↦ late_of paths (
            parse_multipart_stream texts (opener paths) rfile (suc n) boundary
              (record { disk = d; fh = none; part = none; temp = none; dest = none }))
      ]
  late_target _ content_type rfile d = none

  -- Whatever is posted, and whichever calls of the disk fail: a file that is no upload's part and not the
  -- temporary file is as it was before, unless the answer says that it was stored, or it is the destination
  -- of a file that came before its path and was refused during its move.
  pub do_post-Leaves :
      (q : Text) (content_length : Option ℤ) (content_type : Text) (rfile : Bytes) (d : Disk)
      (plain : IsPlain paths q)
      → Leaves paths q plain
          (lookup q d.files)
          (late_target content_length content_type rfile d)
          (do_post paths texts content_length content_type rfile d)
  unfolding do_post
  do_post-Leaves q none content_type rfile d plain = λ k. refl
  do_post-Leaves q (some (negsuc n)) content_type rfile d plain = λ k. refl
  do_post-Leaves q (some (pos zero)) content_type rfile d plain = λ k. refl
  do_post-Leaves q (some (pos (suc n))) content_type rfile d plain =
      let held = lookup q d.files in
      elim (Option-cases (boundary_from_content_type texts content_type)) [
        | inl missing ↦ rw (missing, do_post) (λ k. refl)
        | inr (boundary, known) ↦
            rw (known, late_target, do_post)
              (after_parse-Leaves paths q plain held texts _ (
                parsed-Untouched q held _ plain (
                  parse_multipart_stream-Holds texts (opener paths) (Untouched paths q plain held)
                    (Other paths q plain held) (open_file-Holds paths q plain held)
                    (write-Holds paths q plain held) rfile (suc n) boundary _
                    (record { same = refl; fh = tt; part = tt; temp = tt }))))
      ]
