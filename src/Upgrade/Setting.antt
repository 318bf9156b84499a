-- ===== src/Upgrade/Setting.antt =====
-- socket_server/autoupgrade.py: the line `autoupgrade=` of the configuration, read and written. A file is
-- the list of its lines.
pub mod ReadBack
use socket_server.Prelude.{
  Bool, true, Option, none, some, List, [], ◌∷◌, ◌++◌, ◌==◌, if◌then◌else◌, drop,
}
use socket_server.Prelude.Bytes.{Text, codes, eqb, starts_with}
use socket_server.Prelude.Dict.{Dict, insert}
use socket_server.Prelude.Strip.{is_space, strip}
use socket_server.Upgrade.{Hashes}

abbrev pub key_name : Text
key_name = codes "autoupgrade"

-- `line.split("=", 1)`, the parts before and behind the first "=".
unfoldable pub split_equals : Text → Option (Text × Text)
split_equals [] = none
split_equals (c ∷ cs) =
    if c == 61
    then some ([], cs)
    else elim (split_equals cs) [ none ↦ none | some p ↦ some (c ∷ p.0, p.1) ]

-- The first line that begins with `autoupgrade=` decides; without one upgrades are accepted.
pub read_lines : Hashes → List Text → Bool
read_lines h [] = true
read_lines h (l ∷ ls) =
    let line = strip is_space l in
    let rest = read_lines h ls in
    if starts_with (key_name ++ (61 ∷ [])) line
    then eqb (h.lower (strip is_space (drop 12 line))) (codes "on")
    else rest

-- `_read_autoupgrade_config`: none is a file that is not there, or a read that raised.
pub read_autoupgrade_config : Hashes → Option (List Text) → Bool
read_autoupgrade_config h none = true
read_autoupgrade_config h (some lines) = read_lines h lines

-- The dict of `set_autoupgrade`, in the order of the lines.
unfoldable pub add_line : Text → Dict Text → Dict Text
add_line l config = elim (split_equals (strip is_space l)) [
  | none ↦ config
  | some p ↦ insert (strip is_space p.0) (strip is_space p.1) config
]

unfoldable pub read_dict : List Text → Dict Text → Dict Text
read_dict [] config = config
read_dict (l ∷ ls) config = read_dict ls (add_line l config)

unfoldable pub write_dict : Dict Text → List Text
write_dict [] = []
write_dict ((k, v) ∷ config) = (k ++ (61 ∷ v)) ∷ write_dict config

-- `set_autoupgrade`: the lines of the file afterwards.
unfoldable pub set_autoupgrade : Text → Option (List Text) → List Text
set_autoupgrade state none = write_dict (insert key_name state [])
set_autoupgrade state (some lines) = write_dict (insert key_name state (read_dict lines []))
