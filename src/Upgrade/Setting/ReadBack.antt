-- ===== src/Upgrade/Setting/ReadBack.antt =====
-- socket_server/autoupgrade.py: lines that are written and read again.
use socket_server.Prelude.{
  either, either_by, ℕ, ◌≡◌, refl, sym, ap, ◌∙◌, subst, inl, inr, Bool, true, false, Option, none,
  some, List, [], ◌∷◌, ◌++◌, arith, ◌==◌, Bool-cases, Option-cases, drop, All,
}
use socket_server.Prelude.Bytes.{Text, codes, eqb, starts_with, eqb_refl, eqb→eq}
use socket_server.Prelude.Dict.{Dict, lookup, insert, lookup-insert, All-insert}
use socket_server.Prelude.Strip.{is_space, lstrip, rstrip, strip, keep_end}
use socket_server.Upgrade.{Hashes}
use socket_server.Upgrade.Setting.{
  key_name, split_equals, read_lines, read_autoupgrade_config, add_line, read_dict, write_dict,
  set_autoupgrade,
}

-- No white space at the front, and none at the end.
abbrev Led : Text → Type 0
Led [] = Unit
Led (c ∷ cs) = is_space c ≡ false

pub record IsStripped (s : Text) : Type 0 where
  pub led : Led s
  pub ended : rstrip is_space s ≡ s

-- A key of the dict has no "=".
abbrev pub NoEquals : Text → Type 0
NoEquals = All (λ c. (c == 61) ≡ false)

pub record IsEntry (e : Text × Text) : Type 0 where
  pub key : IsStripped e.0
  pub no_equals : NoEquals e.0
  pub val : IsStripped e.1

lstrip-Led : (s : Text) → Led (lstrip is_space s)
unfolding lstrip
lstrip-Led [] = tt
lstrip-Led (c ∷ cs) = elim (Bool-cases (is_space c)) [
  | inl gone ↦ rw gone (lstrip-Led cs)
  | inr kept ↦ rw kept kept
]

keep_end_kept : (c : ℕ) (r : Text) → is_space c ≡ false → keep_end is_space c r ≡ c ∷ r
keep_end_kept c [] h = rw h
keep_end_kept c (d ∷ ds) h = refl

keep_end_again :
    (c : ℕ) (r : Text)
    → rstrip is_space r ≡ r
    → rstrip is_space (keep_end is_space c r) ≡ keep_end is_space c r
unfolding rstrip
keep_end_again c [] h = elim (Bool-cases (is_space c)) [
  | inl gone ↦ rw gone refl
  | inr kept ↦ rw (kept, rstrip) (keep_end_kept c [] kept)
]
keep_end_again c (d ∷ ds) h = ap (keep_end is_space c) h

rstrip-rstrip : (s : Text) → rstrip is_space (rstrip is_space s) ≡ rstrip is_space s
unfolding rstrip
rstrip-rstrip [] = refl
rstrip-rstrip (c ∷ s) = keep_end_again c (rstrip is_space s) (rstrip-rstrip s)

keep_end_more :
    (x : ℕ) (s t : Text) (c : ℕ) → keep_end is_space x (s ++ (c ∷ t)) ≡ x ∷ (s ++ (c ∷ t))
keep_end_more x [] t c = refl
keep_end_more x (y ∷ s) t c = refl

rstrip-append :
    (s t : Text) (c : ℕ)
    → rstrip is_space (c ∷ t) ≡ c ∷ t
    → rstrip is_space (s ++ (c ∷ t)) ≡ s ++ (c ∷ t)
unfolding rstrip
rstrip-append [] t c h = h
rstrip-append (x ∷ s) t c h =
    ap (keep_end is_space x) (rstrip-append s t c h) ∙ keep_end_more x s t c

rstrip-Led : (s : Text) → Led s → Led (rstrip is_space s)
unfolding rstrip
rstrip-Led [] h = tt
rstrip-Led (c ∷ s) h = subst Led (sym (keep_end_kept c (rstrip is_space s) h)) h

strip-IsStripped : (s : Text) → IsStripped (strip is_space s)
unfolding strip
strip-IsStripped s = record {
  led = rstrip-Led (lstrip is_space s) (lstrip-Led s);
  ended = rstrip-rstrip (lstrip is_space s);
}

lstrip-kept : (s : Text) → Led s → lstrip is_space s ≡ s
unfolding lstrip
lstrip-kept [] h = refl
lstrip-kept (c ∷ s) h = rw h

pub strip-kept : (s : Text) → IsStripped s → strip is_space s ≡ s
unfolding strip
strip-kept s h = ap (rstrip is_space) (lstrip-kept s h.led) ∙ h.ended

-- The line of an entry is stripped.
pub line-IsStripped : (k v : Text) → IsStripped k → IsStripped v → IsStripped (k ++ (61 ∷ v))
unfolding rstrip
line-IsStripped k v hk hv = record {
  led = line_led k hk.led;
  ended =
      rstrip-append k v 61
        (keep_end_kept 61 (rstrip is_space v) (ground arith) ∙ ap (λ s. 61 ∷ s) hv.ended);
}
  where
    line_led : (k : Text) → Led k → Led (k ++ (61 ∷ v))
    line_led [] h = ground arith
    line_led (c ∷ cs) h = h

-- A line begins with a key and "=" exactly if that is its key.
pub starts_with-key :
    (p k v : Text)
    → NoEquals p
    → NoEquals k
    → starts_with (p ++ (61 ∷ [])) (k ++ (61 ∷ v)) ≡ eqb p k
unfolding starts_with eqb
starts_with-key [] [] v hp hk = refl
starts_with-key [] (c ∷ k) v hp hk = ground (arith, hk.0)
starts_with-key (x ∷ p) [] v hp hk = ground (arith, hp.0)
starts_with-key (x ∷ p) (c ∷ k) v hp hk = ground (arith, starts_with-key p k v hp.1 hk.1)

pub key_name-NoEquals : NoEquals key_name
key_name-NoEquals = ground arith

pub key_name-IsStripped : IsStripped key_name
unfolding rstrip
key_name-IsStripped = record { led = refl; ended = refl }

lstrip-All : (P : ℕ → Type 0) (s : Text) → All P s → All P (lstrip is_space s)
unfolding lstrip
lstrip-All P [] h = tt
lstrip-All P (c ∷ s) h = either (All P) (is_space c) _ _ (lstrip-All P s h.1) h

keep_end-All : (P : ℕ → Type 0) (c : ℕ) (r : Text) → P c → All P r → All P (keep_end is_space c r)
keep_end-All P c [] p h = either (All P) (is_space c) _ _ tt (p, tt)
keep_end-All P c (d ∷ ds) p h = (p, h)

rstrip-All : (P : ℕ → Type 0) (s : Text) → All P s → All P (rstrip is_space s)
unfolding rstrip
rstrip-All P [] h = tt
rstrip-All P (c ∷ s) h = keep_end-All P c (rstrip is_space s) h.0 (rstrip-All P s h.1)

strip-All : (P : ℕ → Type 0) (s : Text) → All P s → All P (strip is_space s)
unfolding strip
strip-All P s h = rstrip-All P (lstrip is_space s) (lstrip-All P s h)

SplitsWell : Option (Text × Text) → Type 0
SplitsWell none = Unit
SplitsWell (some p) = NoEquals p.0

split_equals-NoEquals : (s : Text) → SplitsWell (split_equals s)
unfolding split_equals SplitsWell
split_equals-NoEquals [] = tt
split_equals-NoEquals (c ∷ s) =
    either_by SplitsWell (c == 61) _ _ (λ e. tt)
      λ e. elim (Option-cases (split_equals s)) [
        | inl none_left ↦ rw (none_left, split_equals) tt
        | inr (p, known) ↦
            rw (known, split_equals) (e, subst SplitsWell known (split_equals-NoEquals s))
      ]

add_line-AreEntries : (l : Text) (d : Dict Text) → All IsEntry d → All IsEntry (add_line l d)
unfolding add_line SplitsWell
add_line-AreEntries l d h = elim (Option-cases (split_equals (strip is_space l))) [
  | inl no_entry ↦ rw (no_entry, add_line) h
  | inr (p, known) ↦
      rw (known, add_line)
        (All-insert IsEntry (strip is_space p.0) (strip is_space p.1) d
          (record {
            key = strip-IsStripped p.0;
            no_equals =
                strip-All (λ c. (c == 61) ≡ false) p.0
                  (subst SplitsWell known (split_equals-NoEquals (strip is_space l)));
            val = strip-IsStripped p.1;
          })
          h)
]

pub read_dict-AreEntries :
    (ls : List Text) (d : Dict Text) → All IsEntry d → All IsEntry (read_dict ls d)
unfolding read_dict
read_dict-AreEntries [] d h = h
read_dict-AreEntries (l ∷ ls) d h =
    read_dict-AreEntries ls (add_line l d) (add_line-AreEntries l d h)

module _ (h : Hashes) where
  -- What the value under the key says.
  abbrev says : Option Text → Bool
  says none = true
  says (some v) = eqb (h.lower (strip is_space v)) (codes "on")

  line_decides :
      (k v : Text)
      → eqb key_name k ≡ true
      → h.lower (strip is_space (drop 12 (k ++ (61 ∷ v)))) ≡ h.lower (strip is_space v)
  line_decides k v same =
      subst (λ j. h.lower (strip is_space (drop 12 (j ++ (61 ∷ v)))) ≡ h.lower (strip is_space v))
        (eqb→eq key_name k same) refl

  read_lines-write_dict :
      (d : Dict Text) → All IsEntry d → read_lines h (write_dict d) ≡ says (lookup key_name d)
  unfolding read_lines write_dict lookup
  read_lines-write_dict [] a = refl
  read_lines-write_dict ((k, v) ∷ d) a =
      rw
        (
          strip-kept (k ++ (61 ∷ v)) (line-IsStripped k v a.0.key a.0.val),
          starts_with-key key_name k v key_name-NoEquals a.0.no_equals,
        )
        (elim (Bool-cases (eqb key_name k)) [
          | inl same ↦ rw (same, line_decides k v same) refl
          | inr other ↦ rw other (read_lines-write_dict d a.1)
        ])

  after_insert :
      (state : Text) (d : Dict Text)
      → IsStripped state
      → All IsEntry d
      → read_lines h (write_dict (insert key_name state d)) ≡ eqb (h.lower state) (codes "on")
  after_insert state d stripped a =
      let entry : IsEntry (key_name, state) = record {
        key = key_name-IsStripped;
        no_equals = key_name-NoEquals;
        val = stripped;
      } in
      let found : lookup key_name (insert key_name state d) ≡ some state =
        lookup-insert key_name key_name state d ∙ rw (eqb_refl key_name) refl in
      read_lines-write_dict (insert key_name state d) (All-insert IsEntry key_name state d entry a)
      ∙ ap says found
      ∙ ap (λ s. eqb (h.lower s) (codes "on")) (strip-kept state stripped)

  -- What is set is read back, whatever the file held before: upgrades are accepted afterwards exactly if
  -- the state that was set, a text without white space at its ends, is "on" in small letters.
  pub read-set_autoupgrade :
      (state : Text) (file : Option (List Text))
      → IsStripped state
      → read_autoupgrade_config h (some (set_autoupgrade state file))
        ≡ eqb (h.lower state) (codes "on")
  unfolding read_autoupgrade_config set_autoupgrade
  read-set_autoupgrade state none stripped = after_insert state [] stripped tt
  read-set_autoupgrade state (some lines) stripped =
      after_insert state (read_dict lines []) stripped (read_dict-AreEntries lines [] tt)
