-- ===== src/NetUtils/Tables.antt =====
-- socket_server/netutils.py, lines 83 to 138: the tables that `route` and `ifconfig` print.
use socket_server.Prelude.{
  ℕ, zero, suc, ◌+◌, ◌-◌, ◌*◌, Bool, true, false, ◌&&◌, ◌||◌, Option, none, some, List, [], ◌∷◌,
  ◌++◌, map, leb, ◌==◌, if◌then◌else◌, length,
}
use socket_server.Prelude.Bytes.{Text, codes, eqb, starts_with}
use socket_server.Prelude.Int.{eq_ℕ}
use mathlib.Core.Option
use socket_server.Prelude.Dict.{Dict, lookup, insert, erase}
use socket_server.Prelude.Strip.{is_space, strip}
use socket_server.NetUtils.{Completed, Shell, list, exec_cmd_subprocess, ensure_command}

abbrev cons_first : ℕ → List Text → List Text
cons_first c [] = (c ∷ []) ∷ []
cons_first c (p ∷ ps) = (c ∷ p) ∷ ps

-- `s.split("\n")`; `s.splitlines()` differs in empty lines, which its users skip.
unfoldable split_lines : Text → List Text
split_lines [] = [] ∷ []
split_lines (c ∷ cs) = let rest = split_lines cs in if c == 10 then [] ∷ rest else cons_first c rest

abbrev keep_word : Text → List Text → List Text
keep_word [] ws = ws
keep_word (c ∷ cs) ws = (c ∷ cs) ∷ ws

-- The first word, which may be empty, and those behind it.
words_from : Text → Text × List Text
words_from [] = ([], [])
words_from (c ∷ cs) =
    let (word, rest) = words_from cs in
    if is_space c then ([], keep_word word rest) else (c ∷ word, rest)

-- `s.split()`
unfoldable pub words : Text → List Text
unfolding words_from
words s = keep_word (words_from s).0 (words_from s).1

-- `dict(zip(head_list, fields))`, into the dict so far.
zip_into : List Text → List Text → Dict Text → Dict Text
zip_into (k ∷ ks) (v ∷ vs) d = zip_into ks vs (insert k v d)
zip_into _ _ d = d

-- `tmp_dict.pop("Destination")` raises where the column is missing.
route_line : List Text → Text → Dict (Dict Text) → Option (Dict (Dict Text))
route_line head_list line res =
    let tmp_dict = zip_into head_list (words (strip is_space line)) [] in
    elim (lookup (codes "Destination") tmp_dict) [
      | none ↦ none
      | some key ↦ some (insert key (erase (codes "Destination") tmp_dict) res)
    ]

route_lines : List Text → List Text → Dict (Dict Text) → Option (Dict (Dict Text))
route_lines head_list [] res = some res
route_lines head_list (line ∷ rest) res = elim (route_line head_list line res) [
  | none ↦ none
  | some res' ↦ route_lines head_list rest res'
]

-- The lines behind the title: with no route below the head there is no table.
route_table : List Text → Option (Dict (Dict Text))
route_table (title ∷ head ∷ first ∷ rest) =
    route_lines (words (strip is_space head)) (first ∷ rest) []
route_table _ = some []

module _ {W : Type 0} (sh : Shell W) where
  -- `routeinfo`; `none` is the exception.
  pub routeinfo : W → Option (Dict (Dict Text)) × W
  routeinfo w =
      let (response, w') =
        exec_cmd_subprocess sh (socket_server.NetUtils.line (codes "route -n")) none none true w in
      (
        if eq_ℕ response.returncode 0
            then route_table (split_lines (strip is_space response.stdout))
            else none,
        w',
      )

-- `str.lower` on ASCII.
abbrev lower_char : ℕ → ℕ
lower_char c = if leb 65 c && leb c 90 then c + 32 else c

unfoldable pub has_part : Text → Text → Bool
has_part part [] = starts_with part []
has_part part (c ∷ cs) = starts_with part (c ∷ cs) || has_part part cs

-- `s.replace(old, new)`, with the characters of a match that are still to be skipped.
replace_from : Text → Text → ℕ → Text → Text
replace_from old new skip [] = []
replace_from old new (suc skip) (c ∷ cs) = replace_from old new skip cs
replace_from old new zero (c ∷ cs) =
    let kept = c ∷ replace_from old new zero cs in
    let replaced = new ++ replace_from old new (length old - 1) cs in
    if starts_with old (c ∷ cs) then replaced else kept

-- The word behind the first `mtu` that has one.
after_mtu : List Text → Option Text
after_mtu (p ∷ q ∷ rest) =
    let later = after_mtu (q ∷ rest) in
    if eqb (map lower_char p) (codes "mtu") then some q else later
after_mtu _ = none

mtu_of_line : Text → Option Text
mtu_of_line line =
    if has_part (codes "mtu") (map lower_char line)
    then after_mtu (words (replace_from (codes "MTU:") (codes " mtu ") 0 line))
    else none

mtu_of_lines : List Text → Option Text
mtu_of_lines [] = none
mtu_of_lines (line ∷ rest) = elim (mtu_of_line line) [ none ↦ mtu_of_lines rest | some m ↦ some m ]

-- `int` of ASCII digits; anything else is taken to raise.
decimal_from : ℕ → Text → Option ℕ
decimal_from n [] = some n
decimal_from n (c ∷ cs) =
    let rest = decimal_from (10 * n + (c - 48)) cs in if leb 48 c && leb c 57 then rest else none

unfoldable decimal : Text → Option ℕ
unfolding decimal_from
decimal [] = none
decimal (c ∷ cs) = decimal_from 0 (c ∷ cs)

-- `str` of a number is a parameter: `digits`.
module _ {W : Type 0} (sh : Shell W) (digits : ℕ → Text) where
  -- The value is set if it is another one; `none` is an exception.
  set_mtu : Text → ℕ → Option ℕ → W → Option W
  set_mtu eth value none w = none
  set_mtu eth value (some old) w =
      if old == value
      then some w
      else some
          (exec_cmd_subprocess sh (list (codes "ifconfig" ∷ eth ∷ codes "mtu" ∷ digits value ∷ []))
            none none false w).1

  read_mtu : Text → ℕ → Completed × W → Option W
  read_mtu eth value (res, w) =
      if eq_ℕ res.returncode 0
      then set_mtu eth value (Option.bind (mtu_of_lines (split_lines res.stdout)) decimal) w
      else none

  -- `mtu`; the five seconds behind a change are left out.
  pub mtu : Text → ℕ → W → Option W
  mtu eth value w =
      let (there, w₁) = ensure_command sh (codes "ifconfig") none w in
      if there
      then read_mtu eth value
          (exec_cmd_subprocess sh (list (codes "ifconfig" ∷ eth ∷ [])) none none false w₁)
      else none
