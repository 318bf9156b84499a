-- ===== src/HttpFile/Port.antt =====
-- socket_server/http_file.py, lines 190 to 205 and 394 to 431: the port of the HTTP service in the
-- configuration, and the servers that are started. `int` is a parameter, `none` for a ValueError.
pub mod Kept
pub mod Started
use socket_server.Prelude.{
  Bool, true, false, Option, none, some, List, [], ◌∷◌, ◌++◌, if◌then◌else◌, drop,
}
use socket_server.Prelude.Bytes.{Text, codes, starts_with}
use socket_server.Prelude.Int.{ℤ, pos, eq_ℕ}
use socket_server.Prelude.Strip.{is_space, strip}

abbrev pub default_http_port : ℤ
default_http_port = pos 9001

abbrev pub or_default : Option ℤ → ℤ
or_default none = default_http_port
or_default (some port) = port

-- The first line that begins with `http_port=` decides; a value that is no number counts as none.
pub read_port_lines : (Text → Option ℤ) → List Text → ℤ
read_port_lines int [] = default_http_port
read_port_lines int (l ∷ ls) =
    let line = strip is_space l in
    let rest = read_port_lines int ls in
    if starts_with (codes "http_port=") line
    then or_default (int (strip is_space (drop 10 line)))
    else rest

-- `read_http_port`: none is a file that is not there, or whose reading raises.
pub read_http_port : (Text → Option ℤ) → Option (List Text) → ℤ
read_http_port int none = default_http_port
read_http_port int (some lines) = read_port_lines int lines

-- How a server is created: it listens, an OSError, or another exception (a port out of range).
pub data Created : Type 0 where
  listens os_error other_error : Created

pub data Family : Type 0 where
  v4 v6 : Family

add_v6 : Created → List Family → Bool × List Family
add_v6 listens servers = (false, servers ++ (v6 ∷ []))
add_v6 os_error servers = (false, servers)
add_v6 other_error servers = (true, servers)

add_v4 : Created → Created → List Family → Bool × List Family
add_v4 listens second servers = add_v6 second (servers ++ (v4 ∷ []))
add_v4 os_error second servers = (false, servers)
add_v4 other_error second servers = (true, servers)

-- `start_http_file_server`: whether an exception leaves the function, and the servers afterwards.
pub start_http_file_server : ℤ → Created → Created → List Family → Bool × List Family
start_http_file_server port first second servers =
    if eq_ℕ port 0 then (false, servers) else add_v4 first second servers
