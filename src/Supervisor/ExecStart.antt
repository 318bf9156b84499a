-- ===== src/Supervisor/ExecStart.antt =====
-- socket_server/supervisor.py: the command that a unit file starts.
use socket_server.Prelude.{
  All-append, ℕ, ◌≡◌, refl, sym, ap, ◌∙◌, subst, inl, inr, true, false, [], ◌∷◌, ◌++◌, append-nil,
  append_assoc, ◌==◌, if◌then◌else◌, ==_iff, Bool-cases, length, drop, All,
}
use socket_server.Prelude.Bytes.{Text, codes, starts_with}
use socket_server.Prelude.Strip.{is_space, lstrip, rstrip, keep_end, strip}
use socket_server.Supervisor.{unit_content, expected_exec, unit_head, unit_tail}

-- What follows the first place of a text where another one stands.
find_behind : Text → Text → Text
find_behind part [] = []
find_behind part (c ∷ cs) =
    if starts_with part (c ∷ cs) then drop (length part) (c ∷ cs) else find_behind part cs

until_newline : Text → Text
until_newline [] = []
until_newline (c ∷ cs) = if c == 10 then [] else c ∷ until_newline cs

-- The command that systemd starts: the rest of the line behind the first `ExecStart=`.
pub exec_start : Text → Text
exec_start unit = until_newline (find_behind (codes "ExecStart=") unit)

abbrev pub OnOneLine : Text → Type 0
OnOneLine = All (λ (c : ℕ). (c == 10) ≡ false)

until_newline-append : (p rest : Text) → OnOneLine p → until_newline (p ++ (10 ∷ rest)) ≡ p
unfolding until_newline
until_newline-append [] rest h = refl
until_newline-append (c ∷ cs) rest h =
    rw h.0 (ap (λ (t : Text). c ∷ t) (until_newline-append cs rest h.1))

behind_head : (s : Text) → find_behind (codes "ExecStart=") (unit_head ++ s) ≡ s
unfolding find_behind starts_with
behind_head s = refl

pub exec_start-unit_content :
    (p : Text) → OnOneLine p → exec_start (unit_content p) ≡ p ++ codes " serve"
unfolding exec_start unit_content
exec_start-unit_content p h =
    ap until_newline (
      behind_head (p ++ (codes " serve" ++ (10 ∷ unit_tail)))
      ∙ sym (append_assoc p (codes " serve") (10 ∷ unit_tail)))
    ∙ until_newline-append (p ++ codes " serve") unit_tail (
        All-append (λ (c : ℕ). (c == 10) ≡ false) p (codes " serve") h
          (refl, (refl, (refl, (refl, (refl, (refl, tt)))))))

-- What `strip` takes away.
abbrev IsBlank : Text → Type 0
IsBlank = All (λ (c : ℕ). is_space c ≡ true)

lstrip_parts : (s : Text) → (a : Text) × IsBlank a × (s ≡ a ++ lstrip is_space s)
unfolding lstrip
lstrip_parts [] = ([], tt, refl)
lstrip_parts (c ∷ cs) = elim (Bool-cases (is_space c)) [
  | inl blank ↦
      let (a, blanks, e) = lstrip_parts cs in
      (c ∷ a, (blank, blanks), rw blank (ap (λ (t : Text). c ∷ t) e))
  | inr other ↦ ([], tt, rw other)
]

keep_end_parts : (c : ℕ) (r : Text) → (b : Text) × (c ∷ r ≡ keep_end is_space c r ++ b)
keep_end_parts c [] = elim (Bool-cases (is_space c)) [
  | inl blank ↦ (c ∷ [], rw blank)
  | inr other ↦ ([], rw other)
]
keep_end_parts c (d ∷ ds) = ([], sym (append-nil (c ∷ d ∷ ds)))

rstrip_parts : (s : Text) → (b : Text) × (s ≡ rstrip is_space s ++ b)
unfolding rstrip
rstrip_parts [] = ([], refl)
rstrip_parts (c ∷ cs) =
    let (b, e) = rstrip_parts cs in
    let (b', e') = keep_end_parts c (rstrip is_space cs) in
    (
      b' ++ b,
      ap (λ (t : Text). c ∷ t) e
          ∙ ap (λ (t : Text). t ++ b) e'
          ∙ append_assoc (keep_end is_space c (rstrip is_space cs)) b' b,
    )

blank_first :
    (a s : Text)
    → IsBlank a
    → find_behind (codes "ExecStart=") (a ++ s) ≡ find_behind (codes "ExecStart=") s
unfolding find_behind starts_with
blank_first [] s h = refl
blank_first (c ∷ cs) s h = elim (Bool-cases (69 == c)) [
  | inl big_e ↦ absurd (
      let not_blank : is_space 69 ≡ true =
        subst (λ x. is_space x ≡ true) (sym ((==_iff 69 c).0 big_e)) h.0 in
      cc)
  | inr other ↦ rw other (blank_first cs s h.1)
]

stripped_current :
    (b : Text)
    → exec_start (strip is_space (unit_content expected_exec) ++ b)
      ≡ expected_exec ++ codes " serve"
unfolding exec_start unit_content find_behind until_newline starts_with strip lstrip rstrip
stripped_current b = refl

-- A unit that differs from the expected one by white space at its ends starts the same command.
pub exec_start-stripped :
    (u : Text)
    → strip is_space u ≡ strip is_space (unit_content expected_exec)
    → exec_start u ≡ expected_exec ++ codes " serve"
unfolding exec_start
exec_start-stripped u e =
    let (a, blanks, left) = lstrip_parts u in
    let (b, right) = rstrip_parts (lstrip is_space u) in
    let whole : u ≡ a ++ (strip is_space u ++ b) =
      left ∙ ap (λ (t : Text). a ++ t) (unfold strip in right) in
    ap (λ (t : Text). until_newline (find_behind (codes "ExecStart=") t)) whole
    ∙ ap until_newline (blank_first a (strip is_space u ++ b) blanks)
    ∙ ap (λ (t : Text). exec_start (t ++ b)) e
    ∙ stripped_current b
