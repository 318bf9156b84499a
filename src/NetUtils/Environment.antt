-- ===== src/NetUtils/Environment.antt =====
-- socket_server/netutils.py, lines 35 to 61: the environment that a child process is given.
use socket_server.Prelude.{
  ◌≡◌, refl, sym, ap, ◌∙◌, subst, ◌≢◌, ◌↔◌, ◌⊎◌, inl, inr, Bool, true, false, not, ◌&&◌, ◌||◌,
  Option, none, some, [], ◌∷◌, ◌++◌, arith, if◌then◌else◌, Bool-cases, length, drop, All,
}
use socket_server.Prelude.Bytes.{
  Text, codes, eqb, starts_with, eqb_refl, eqb→eq, starts_with-append, starts_with-drop,
}
use socket_server.Prelude.Dict.{Dict, lookup}
use socket_server.NetUtils.{under_meipass, is_injected, drop_injected, clean_subprocess_env}

-- No key comes twice, as in every dict.
abbrev IsUnique : Dict Text → Type 0
IsUnique [] = Unit
IsUnique ((k, v) ∷ d) = All (λ (e : Text × Text). eqb e.0 k ≡ false) d × IsUnique d

-- A text starts with another one.
abbrev StartsWith : Text → Text → Type 0
StartsWith p s = (rest : Text) × (s ≡ p ++ rest)

-- The value leads into the directory where the program is unpacked.
abbrev LeadsIn : Option Text → Text → Type 0
LeadsIn none value = ⊥
LeadsIn (some meipass) value = (meipass ≢ []) × StartsWith meipass value

-- The variables that the comment of the source promises to keep.
pub record IsClean (meipass : Option Text) (k value : Text) : Type 0 where
  pub no_library_path : k ≢ codes "LD_LIBRARY_PATH"
  pub no_prefix : ¬ StartsWith (codes "_PYI_") k
  pub no_unpacked : (k ≡ codes "PATH") ⊎ (¬ LeadsIn meipass value)

kept_if : Option Text → Text → Option Text → Option Text
kept_if meipass k none = none
kept_if meipass k (some value) = if is_injected meipass k value then none else some value

lookup-none :
    (k : Text) (d : Dict Text)
    → All (λ (e : Text × Text). eqb e.0 k ≡ false) d
    → (j : Text) → eqb j k ≡ true
    → lookup j d ≡ none
unfolding lookup
lookup-none k [] a j e = refl
lookup-none k ((i, v) ∷ d) a j e =
    let other : eqb j i ≡ false = elim (Bool-cases (eqb j i)) [
      | inr f ↦ f
      | inl t ↦ absurd (
          let clash : eqb i k ≡ true = subst (λ x. eqb x k ≡ true) (eqb→eq j i t) e in
          let not_clash = a.0 in cc)
    ] in
    rw other (lookup-none k d a.1 j e)

lookup-drop_injected :
    (meipass : Option Text) (j : Text) (d : Dict Text)
    → IsUnique d
    → lookup j (drop_injected meipass d) ≡ kept_if meipass j (lookup j d)
unfolding lookup drop_injected kept_if
lookup-drop_injected meipass j [] u = refl
lookup-drop_injected meipass j ((k, v) ∷ d) u =
    let ih = lookup-drop_injected meipass j d u.1 in
    elim (Bool-cases (eqb j k)) [
      | inl same ↦
          let here : j ≡ k = eqb→eq j k same in
          let gone : lookup j d ≡ none = lookup-none k d u.0 j same in
          elim (Bool-cases (is_injected meipass k v)) [
            | inl bad ↦
                rw (same, bad, kept_if, here, bad)
                  (subst (λ x. lookup x (drop_injected meipass d) ≡ none) here
                    (ih ∙ ap (kept_if meipass j) gone))
            | inr good ↦ rw (good, lookup, same, kept_if, here, good)
          ]
      | inr other ↦ elim (Bool-cases (is_injected meipass k v)) [
        | inl bad ↦ rw (bad, other) ih
        | inr good ↦ rw (good, lookup, other) ih
      ]
    ]

eqb-ne : (s t : Text) → eqb s t ≡ false → s ≢ t
eqb-ne s t h e = let same : eqb s t ≡ true = subst (λ x. eqb s x ≡ true) e (eqb_refl s) in cc

ne-eqb : (s t : Text) → s ≢ t → eqb s t ≡ false
ne-eqb s t h = elim (Bool-cases (eqb s t)) [
  | inl same ↦ absurd (h (eqb→eq s t same))
  | inr other ↦ other
]

starts_with-no : (p s : Text) → starts_with p s ≡ false → ¬ StartsWith p s
starts_with-no p s h (rest, e) =
    let starts : starts_with p s ≡ true =
      subst (λ x. starts_with p x ≡ true) (sym e) (starts_with-append p rest) in
    cc

no-starts_with : (p s : Text) → ¬ StartsWith p s → starts_with p s ≡ false
no-starts_with p s h = elim (Bool-cases (starts_with p s)) [
  | inl starts ↦ absurd (h (drop (length p) s, sym (starts_with-drop p s starts)))
  | inr other ↦ other
]

leads_no :
    (meipass : Option Text) (value : Text)
    → under_meipass meipass value ≡ false
    → ¬ LeadsIn meipass value
leads_no none value h l = l
leads_no (some []) value h (full, s) = full refl
leads_no (some (c ∷ cs)) value h (full, s) = starts_with-no (c ∷ cs) value (ground (arith, h)) s

no-leads :
    (meipass : Option Text) (value : Text)
    → ¬ LeadsIn meipass value
    → under_meipass meipass value ≡ false
no-leads none value h = refl
no-leads (some []) value h = refl
no-leads (some (c ∷ cs)) value h =
    let none_starts : ¬ StartsWith (c ∷ cs) value = λ s. h ((λ e. cc), s) in
    ground (arith, no-starts_with (c ∷ cs) value none_starts)

or-false : (a b : Bool) → (a || b) ≡ false → (a ≡ false) × (b ≡ false)
or-false true b h = cc
or-false false b h = (refl, h)

not_injected :
    (meipass : Option Text) (k value : Text)
    → is_injected meipass k value ≡ false
    → IsClean meipass k value
unfolding is_injected
not_injected meipass k value h =
    let (names, values) =
      or-false (eqb k (codes "LD_LIBRARY_PATH") || starts_with (codes "_PYI_") k)
        (not (eqb k (codes "PATH")) && under_meipass meipass value) h in
    let (path, prefix) =
      or-false (eqb k (codes "LD_LIBRARY_PATH")) (starts_with (codes "_PYI_") k) names in
    record {
      no_library_path = eqb-ne k (codes "LD_LIBRARY_PATH") path;
      no_prefix = starts_with-no (codes "_PYI_") k prefix;
      no_unpacked = elim (Bool-cases (eqb k (codes "PATH"))) [
        | inl is_path ↦ inl (eqb→eq k (codes "PATH") is_path)
        | inr other ↦ inr (leads_no meipass value (rw other at values))
      ];
    }

clean_lem :
    (meipass : Option Text) (k value : Text)
    → IsClean meipass k value
    → is_injected meipass k value ≡ false
unfolding is_injected
clean_lem meipass k value c =
    rw
      (
        ne-eqb k (codes "LD_LIBRARY_PATH") c.no_library_path,
        no-starts_with (codes "_PYI_") k c.no_prefix,
      )
      (elim c.no_unpacked [
        | inl is_path ↦
            let same : eqb k (codes "PATH") ≡ true =
              subst (λ x. eqb k x ≡ true) is_path (eqb_refl k) in
            rw same
        | inr out ↦ rw (no-leads meipass value out) (ground arith)
      ])

-- The dict that is cleaned: the one that is given, or that of the program.
abbrev pub given : Dict Text → Option (Dict Text) → Dict Text
given environ none = environ
given environ (some env) = env

clean_given :
    (meipass : Option Text) (environ : Dict Text) (env : Option (Dict Text))
    → clean_subprocess_env meipass environ env ≡ drop_injected meipass (given environ env)
unfolding clean_subprocess_env
clean_given meipass environ none = refl
clean_given meipass environ (some env) = refl

some_eq : (v value : Text) → some v ≡ some value → v ≡ value
some_eq v value h = cc

kept_iff :
    (meipass : Option Text) (k value : Text) (found : Option Text)
    → (kept_if meipass k found ≡ some value) ↔ ((found ≡ some value) × IsClean meipass k value)
unfolding kept_if
kept_iff meipass k value none = ((λ h. absurd (cc)), (λ h. h.0))
kept_iff meipass k value (some v) = elim (Bool-cases (is_injected meipass k v)) [
  | inl bad ↦ rw bad (
    (λ h. absurd (cc)),
    (λ h. absurd (
        let good : is_injected meipass k v ≡ false =
          clean_lem meipass k v
            (subst (λ x. IsClean meipass k x) (sym (some_eq v value h.0)) h.1) in
        cc)),
  )
  | inr good ↦ rw good (
    (λ h.
        (h, subst (λ x. IsClean meipass k x) (some_eq v value h) (not_injected meipass k v good))),
    (λ h. h.0),
  )
]

-- A child process is given a variable with a value exactly when the dict that is cleaned (in which no
-- key comes twice) has it so, its name is not LD_LIBRARY_PATH and does not start with _PYI_, and it is
-- PATH or its value does not lead into the directory where the program is unpacked.
pub lookup-clean_subprocess_env :
    (meipass : Option Text) (environ : Dict Text) (env : Option (Dict Text)) (k value : Text)
    → IsUnique (given environ env)
    → (lookup k (clean_subprocess_env meipass environ env) ≡ some value)
      ↔ ((lookup k (given environ env) ≡ some value) × IsClean meipass k value)
lookup-clean_subprocess_env meipass environ env k value u =
    rw (clean_given meipass environ env, lookup-drop_injected meipass k (given environ env) u)
      (kept_iff meipass k value (lookup k (given environ env)))
