-- ===== src/HttpFile/Port/Kept.antt =====
-- socket_server/http_file.py, lines 190 to 205, on files that socket_server/autoupgrade.py has written.
use socket_server.Prelude.{
  ◌≡◌, refl, sym, ap, ◌∙◌, subst, inl, inr, Option, none, some, List, [], ◌∷◌, ◌++◌, arith, Bool,
  Bool-cases, drop, All, true, false, ◌&&◌, ◌||◌, ◌==◌, if◌then◌else◌,
}
use socket_server.Prelude.Bytes.{Text, codes, eqb, eqb→eq}
use socket_server.Prelude.Int.{ℤ}
use socket_server.Prelude.Dict.{Dict, lookup, insert, lookup-insert, All-insert}
use socket_server.Prelude.Strip.{is_space, strip}
use socket_server.Upgrade.Setting.{
  split_equals, add_line, key_name, read_dict, write_dict, set_autoupgrade,
}
use socket_server.Upgrade.Setting.ReadBack.{
  IsStripped, NoEquals, IsEntry, line-IsStripped, starts_with-key, strip-kept, read_dict-AreEntries,
  key_name-IsStripped, key_name-NoEquals,
}
use socket_server.HttpFile.Port.{default_http_port, or_default, read_port_lines, read_http_port}

abbrev pub port_key : Text
port_key = codes "http_port"

-- The port that an entry of the dict stands for.
abbrev pub port_of : (Text → Option ℤ) → Option Text → ℤ
port_of int none = default_http_port
port_of int (some v) = or_default (int (strip is_space v))

-- A line in its parts round the first "=": is there one, what is before it, and what is behind it.
abbrev pub has_equals : Text → Bool
has_equals [] = false
has_equals (c ∷ cs) = (c == 61) || has_equals cs

abbrev pub before_equals : Text → Text
before_equals [] = []
before_equals (c ∷ cs) = if c == 61 then [] else c ∷ before_equals cs

abbrev pub behind_equals : Text → Text
behind_equals [] = []
behind_equals (c ∷ cs) = if c == 61 then cs else behind_equals cs

-- A line whose key, white space at its ends aside, is `key`.
abbrev pub names : Text → Text → Bool
names key line =
    has_equals (strip is_space line)
    && eqb key (strip is_space (before_equals (strip is_space line)))

-- The value of the last line of the key, white space at its ends aside, or `found` without such a line.
abbrev pub last_value : Text → List Text → Option Text → Option Text
last_value key [] found = found
last_value key (l ∷ ls) found =
    last_value key ls
      (if names key l then some (strip is_space (behind_equals (strip is_space l))) else found)

abbrev pub lines_of : Option (List Text) → List Text
lines_of none = []
lines_of (some lines) = lines

split_equals_lem :
    (s : Text)
    → split_equals s ≡ (if has_equals s then some (before_equals s, behind_equals s) else none)
unfolding split_equals
split_equals_lem [] = refl
split_equals_lem (c ∷ cs) = elim (Bool-cases (c == 61)) [
  | inl here ↦ rw here refl
  | inr there ↦
      rw (there, split_equals_lem cs)
        (elim (Bool-cases (has_equals cs)) [
          | inl behind ↦ rw behind refl
          | inr nowhere ↦ rw nowhere refl
        ])
]

add_line-none :
    (l : Text) (config : Dict Text)
    → split_equals (strip is_space l) ≡ none
    → add_line l config ≡ config
unfolding add_line
add_line-none l config e = rw (e, add_line) refl

add_line-some :
    (l : Text) (config : Dict Text) (key value : Text)
    → split_equals (strip is_space l) ≡ some (key, value)
    → add_line l config ≡ insert (strip is_space key) (strip is_space value) config
unfolding add_line
add_line-some l config key value e = rw (e, add_line) refl

split_with :
    (s : Text) → has_equals s ≡ true → split_equals s ≡ some (before_equals s, behind_equals s)
split_with s e = split_equals_lem s ∙ rw e refl

split_without : (s : Text) → has_equals s ≡ false → split_equals s ≡ none
split_without s e = split_equals_lem s ∙ rw e refl

lookup-add_line :
    (key l : Text) (config : Dict Text)
    → lookup key (add_line l config) ≡ (
        if names key l
        then some (strip is_space (behind_equals (strip is_space l)))
        else lookup key config)
lookup-add_line key l config =
    let line = strip is_space l in
    let value = strip is_space (behind_equals line) in
    elim (Bool-cases (has_equals line)) [
      | inl equals ↦
          ap (lookup key) (
            add_line-some l config (before_equals line) (behind_equals line)
              (split_with line equals))
          ∙ lookup-insert key (strip is_space (before_equals line)) value config
          ∙ ap
              (λ b.
                if b && eqb key (strip is_space (before_equals line))
                then some value
                else lookup key config)
              (sym equals)
      | inr without ↦
          ap (lookup key) (add_line-none l config (split_without line without))
          ∙ ap
              (λ b.
                if b && eqb key (strip is_space (before_equals line))
                then some value
                else lookup key config)
              (sym without)
    ]

lookup-read_dict :
    (key : Text) (ls : List Text) (config : Dict Text)
    → lookup key (read_dict ls config) ≡ last_value key ls (lookup key config)
unfolding read_dict
lookup-read_dict key [] config = refl
lookup-read_dict key (l ∷ ls) config =
    lookup-read_dict key ls (add_line l config)
    ∙ ap (last_value key ls) (lookup-add_line key l config)

port_key-NoEquals : NoEquals port_key
port_key-NoEquals = ground arith

module _ (int : Text → Option ℤ) where
  behind_key :
      (k v : Text)
      → eqb port_key k ≡ true
      → int (strip is_space (drop 10 (k ++ (61 ∷ v)))) ≡ int (strip is_space v)
  behind_key k v same =
      subst (λ j. int (strip is_space (drop 10 (j ++ (61 ∷ v)))) ≡ int (strip is_space v))
        (eqb→eq port_key k same) refl

  read_port_lines-write_dict :
      (d : Dict Text)
      → All IsEntry d
      → read_port_lines int (write_dict d) ≡ port_of int (lookup port_key d)
  unfolding read_port_lines write_dict lookup
  read_port_lines-write_dict [] a = refl
  read_port_lines-write_dict ((k, v) ∷ d) a =
      rw
        (
          strip-kept (k ++ (61 ∷ v)) (line-IsStripped k v a.0.key a.0.val),
          starts_with-key port_key k v port_key-NoEquals a.0.no_equals,
        )
        (elim (Bool-cases (eqb port_key k)) [
          | inl same ↦ rw (same, behind_key k v same) refl
          | inr other ↦ rw other (read_port_lines-write_dict d a.1)
        ])

  after_insert :
      (state : Text) (d : Dict Text)
      → IsStripped state
      → All IsEntry d
      → read_port_lines int (write_dict (insert key_name state d)) ≡ port_of int (lookup port_key d)
  unfolding eqb
  after_insert state d stripped a =
      let entry : IsEntry (key_name, state) = record {
        key = key_name-IsStripped;
        no_equals = key_name-NoEquals;
        val = stripped;
      } in
      read_port_lines-write_dict (insert key_name state d)
        (All-insert IsEntry key_name state d entry a)
      ∙ ap (port_of int) (lookup-insert port_key key_name state d)

  -- After upgrades were switched on or off (by a state without white space at its ends), the HTTP service
  -- finds the port of the last line of the old file whose key is `http_port`, white space round the key and
  -- the value aside, or 9001 without such a line or a number in it.
  pub read_http_port-set_autoupgrade :
      (state : Text) (file : Option (List Text))
      → IsStripped state
      → read_http_port int (some (set_autoupgrade state file))
        ≡ port_of int (last_value port_key (lines_of file) none)
  unfolding read_http_port set_autoupgrade lookup
  read_http_port-set_autoupgrade state none stripped = after_insert state [] stripped tt
  read_http_port-set_autoupgrade state (some lines) stripped =
      after_insert state (read_dict lines []) stripped (read_dict-AreEntries lines [] tt)
      ∙ ap (port_of int) (lookup-read_dict port_key lines [])
