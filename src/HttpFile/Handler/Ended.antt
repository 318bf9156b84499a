-- ===== src/HttpFile/Handler/Ended.antt =====
-- socket_server/http_file.py, lines 130 to 187, with the files of an upload: the parser ends.
use socket_server.Prelude.{refl, either, Option, none, some, [], ◌∷◌, Option-cases, inl, inr, ℕ}
use socket_server.Prelude.Bytes.{Bytes, Text}
use socket_server.Prelude.Dict.{lookup}
use socket_server.HttpFile.Reader.{Result}
use socket_server.HttpFile.Reader.Ends.{Ends}
use socket_server.HttpFile.Multipart.{Texts, parse_multipart_stream}
use socket_server.HttpFile.Multipart.Ends.{parse_multipart_stream-Ends}
use socket_server.HttpFile.Handler.{
  next_fault, Upload, or_os_error, Paths, open_part, open_temp, open_new, open_file, write, opener,
}

or_os_error-Ends :
    (up : Upload) (f : Upload → Result Upload (Text × Upload))
    → ((up' : Upload) → Ends (λ p. Unit {0}) (f up'))
    → Ends (λ p. Unit {0}) (or_os_error up f)
unfolding or_os_error
or_os_error-Ends up f k =
    either (Ends (λ p. Unit {0})) (next_fault up.disk).0 _ _ refl
      (k (record up { disk = (next_fault up.disk).1 }))

module _ (paths : Paths) where
  open_part-Ends : (path : Text) (up : Upload) → Ends (λ p. Unit {0}) (open_part paths path up)
  unfolding open_part
  open_part-Ends path up = or_os_error-Ends up _ (λ made. or_os_error-Ends made _ (λ opened. tt))

  open_temp-Ends : (up : Upload) → Ends (λ p. Unit {0}) (open_temp paths up)
  unfolding open_temp
  open_temp-Ends up = or_os_error-Ends up _ (λ opened. tt)

  open_new-Ends : (path : Option Text) (up : Upload) → Ends (λ p. Unit {0}) (open_new paths path up)
  unfolding open_new
  open_new-Ends (some (c ∷ cs)) up = open_part-Ends (c ∷ cs) up
  open_new-Ends (some []) up = open_temp-Ends up
  open_new-Ends none up = open_temp-Ends up

  open_file-Ends :
      (path : Option Text) (up : Upload) → Ends (λ p. Unit {0}) (open_file paths path up)
  unfolding open_file
  open_file-Ends path up = elim (Option-cases up.fh) [
    | inl closed ↦ rw (closed, open_file) (open_new-Ends path up)
    | inr (fh, known) ↦ rw (known, open_file) tt
  ]

  write-Ends : (fh : Text) (b : Bytes) (up : Upload) → Ends (λ u. Unit {0}) (write paths fh b up)
  unfolding write
  write-Ends fh b up =
      either (Ends (λ u. Unit {0})) (next_fault up.disk).0 _ _ refl
        (elim (Option-cases (lookup fh (next_fault up.disk).1.files)) [
          | inl gone ↦ rw (gone, write) tt
          | inr (held, there) ↦ rw (there, write) tt
        ])

  -- Whatever body, boundary and announced length a request has, and whichever disk calls fail, the parser of
  -- an upload ends: no loop runs out of fuel, and an error is one that the code raises.
  pub parse_upload-Ends :
      (texts : Texts) (rfile : Bytes) (content_length : ℕ) (boundary : Bytes) (up : Upload)
      → Ends
          (λ s. Unit {0})
          (parse_multipart_stream texts (opener paths) rfile content_length boundary up)
  parse_upload-Ends texts rfile content_length boundary up =
      parse_multipart_stream-Ends texts (opener paths) open_file-Ends write-Ends rfile
        content_length boundary up
