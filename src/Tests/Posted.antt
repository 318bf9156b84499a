-- ===== src/Tests/Posted.antt =====
-- Runs of the HTTP file service of socket_server/http_file.py.
use socket_server.Prelude.{◌≡◌, refl, true, false, none, some, [], ◌∷◌, ◌++◌, arith, leb}
use socket_server.Prelude.Bytes.{Bytes, Text, codes, eqb}
use socket_server.Prelude.Int.{pos}
use socket_server.Prelude.Dict.{lookup}
use socket_server.HttpFile.Multipart.{Texts, parse_multipart_stream}
use socket_server.HttpFile.Reader.Ends.{Ends}
use socket_server.HttpFile.Handler.Ended.{parse_upload-Ends}
use socket_server.HttpFile.Handler.{Disk, Paths, Upload, opener, part_of, do_post, do_get, served}
use socket_server.HttpFile.Handler.Untouched.{IsPlain}
use socket_server.HttpFile.Handler.Safety.{Leaves, late_target, do_post-Leaves}
use socket_server.HttpFile.Handler.Download.{do_get-sends}

abbrev latin : Texts
latin = record { decode = λ b. b; encode = λ s. s; is_word = λ c. leb 48 c }

abbrev flat : Paths
flat = record { normalize = λ p. p; temp_name = codes "tmp" }

-- One file, and the second call of the disk fails.
abbrev disk : Disk
disk = record { files = (codes "q", 1 ∷ []) ∷ []; faults = false ∷ true ∷ []; copied = 0 }

no_part_q : (dest : Text) → eqb (codes "q") (part_of dest) ≡ false
unfolding eqb
no_part_q [] = refl
no_part_q (c ∷ []) = ground arith
no_part_q (c ∷ d ∷ ds) = ground arith

q-IsPlain : IsPlain flat (codes "q")
unfolding eqb
q-IsPlain = record { no_part = no_part_q; no_temp = refl }

abbrev blank : Bytes
blank = 13 ∷ 10 ∷ 13 ∷ 10 ∷ []

abbrev quoted : Text → Bytes
quoted name = codes "name=" ++ (34 ∷ (name ++ (34 ∷ [])))

abbrev body : Bytes
body =
    codes "--B"
    ++ (13 ∷ 10 ∷ quoted (codes "path")
        ++ (blank
            ++ (codes "f"
                ++ (13 ∷ 10 ∷ codes "--B"
                    ++ (13 ∷ 10 ∷ quoted (codes "file")
                        ++ (blank ++ (codes "xyz" ++ (13 ∷ 10 ∷ codes "--B--"))))))))

do_post-Leaves_example :
    Leaves flat
      (codes "q")
      q-IsPlain
      (lookup (codes "q") disk.files)
      (late_target flat latin (some (pos 62)) (codes "multipart/form-data; boundary=B") body disk)
      (do_post flat latin (some (pos 62)) (codes "multipart/form-data; boundary=B") body disk)
do_post-Leaves_example =
    do_post-Leaves flat latin (codes "q") (some (pos 62)) (codes "multipart/form-data; boundary=B")
      body disk q-IsPlain

do_get-sends_example :
    do_get (codes "f") true (some 3) ((1 ∷ 2 ∷ []) ∷ (3 ∷ 4 ∷ []) ∷ []) 2
    ≡ served 3 (1 ∷ 2 ∷ 3 ∷ [])
do_get-sends_example =
    do_get-sends 102 [] 3 ((1 ∷ 2 ∷ []) ∷ (3 ∷ 4 ∷ []) ∷ []) 2 (ground arith) (omega arith)

abbrev nothing_open : Upload
nothing_open = record { disk = disk; fh = none; part = none; temp = none; dest = none }

-- The announced length is greater than that of the body.
parse_upload-Ends_example :
    Ends
      (λ s. Unit {0})
      (parse_multipart_stream latin (opener flat) body 70 (codes "B") nothing_open)
parse_upload-Ends_example = parse_upload-Ends flat latin body 70 (codes "B") nothing_open
