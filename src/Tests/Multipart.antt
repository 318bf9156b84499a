-- ===== src/Tests/Multipart.antt =====
-- Runs of the body reader of socket_server/http_file.py.
use socket_server.Prelude.{refl, [], ◌∷◌, ◌++◌, append_assoc, arith}
use socket_server.Prelude.Bytes.{Bytes, codes}
use socket_server.HttpFile.Reader.{BodyReader, Result, ok, stream_value}
use socket_server.HttpFile.Reader.Fill.{pending}
use socket_server.HttpFile.Reader.Find.{IsDelimiter}
use socket_server.HttpFile.Reader.Split.{split_value}
use socket_server.HttpFile.Reader.Stream.{Accepts, Delivers, stream_value-Delivers}

-- CR LF and "--B", and a body with a false delimiter in the value.
abbrev delim : Bytes
delim = 13 ∷ 10 ∷ codes "--B"

abbrev body : Bytes
body = codes "x" ++ (delim ++ (codes "y" ++ (delim ++ codes "--")))

abbrev reader : BodyReader
reader = record { rfile = body; remaining = 14; buf = [] }

abbrev collect : Bytes → Bytes → Result Bytes Bytes
collect b st = ok (st ++ b)

abbrev joined : Bytes → Bytes → Bytes
joined b st = st ++ b

collect-Accepts : Accepts collect joined
collect-Accepts = record { accepts = λ b st. refl; joins = λ a b st. append_assoc st a b }

delim-IsDelimiter : IsDelimiter delim
delim-IsDelimiter = ground arith

stream_value-Delivers_example :
    Delivers joined
      (split_value delim (pending reader))
      []
      (stream_value delim collect 40 reader [])
stream_value-Delivers_example =
    stream_value-Delivers delim collect joined delim-IsDelimiter collect-Accepts 40 reader []
      (omega arith)
