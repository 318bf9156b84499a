-- ===== src/Boce/Chromium/Ready.antt =====
-- socket_server/boce.py, lines 98 to 187: which revision is taken, and what the download leaves.
use socket_server.Prelude.{
  ◌∙◌, ◌+◌, ◌≤◌, ◌<◌, ◌≡◌, refl, sym, ap, subst, ◌⊎◌, inl, inr, Bool, true, false, Option, none,
  some, List, [], ◌∷◌, arith, ltb, ltb→lt, Bool-cases, Option-cases, All,
}
use socket_server.Prelude.Bytes.{Text, codes}
use socket_server.Boce.Chromium.{
  isdigit, value, entry_name, revisions, max_from, newest, fetch_latest_chromium_revision,
  BrowserHost, Events, hint, Download, download_fails, unpacking_fails, unpacks, install_browser,
  in_staging, fetch, locked, with_browser_lock, ensure_chromium,
}

abbrev pub Any : (Text → Type 0) → List Text → Type 0
Any P [] = ⊥
Any P (x ∷ xs) = P x ⊎ Any P xs

Any-imp : (P Q : Text → Type 0) (xs : List Text) → ((x : Text) → P x → Q x) → Any P xs → Any Q xs
Any-imp P Q [] f h = h
Any-imp P Q (x ∷ xs) f (inl p) = inl (f x p)
Any-imp P Q (x ∷ xs) f (inr h) = inr (Any-imp P Q xs f h)

-- An entry that is listed under the name `r`, which is a number.
abbrev Names : Text → Text → Type 0
Names r e = (entry_name e ≡ r) × (isdigit r ≡ true)

abbrev NotAbove : Text → Text → Type 0
NotAbove r e = isdigit (entry_name e) ≡ true → value (entry_name e) ≤ value r

-- `r` is the name of an entry, and no entry whose name is a number has a greater one.
pub record IsNewest (entries : List Text) (r : Text) : Type 0 where
  pub listed : Any (Names r) entries
  pub greatest : All (NotAbove r) entries

-- What the greatest of `best` and `rs` is.
abbrev IsMax : Text → List Text → Text → Type 0
IsMax best rs m =
    ((m ≡ best) ⊎ Any (λ (s : Text). s ≡ m) rs)
    × (value best ≤ value m)
    × All (λ (s : Text). value s ≤ value m) rs

max_from_greater :
    (best r : Text) (rs : List Text)
    → ltb (value best) (value r) ≡ true
    → max_from best (r ∷ rs) ≡ max_from r rs
unfolding max_from
max_from_greater best r rs h = rw h refl

max_from_kept :
    (best r : Text) (rs : List Text)
    → ltb (value best) (value r) ≡ false
    → max_from best (r ∷ rs) ≡ max_from best rs
unfolding max_from
max_from_kept best r rs h = rw h refl

IsMax-greater :
    (best r m : Text) (rs : List Text) → value best < value r → IsMax r rs m → IsMax best (r ∷ rs) m
IsMax-greater best r m rs h (inl e, le, a) = (inr (inl (sym e)), omega arith, (le, a))
IsMax-greater best r m rs h (inr i, le, a) = (inr (inr i), omega arith, (le, a))

IsMax-kept :
    (best r m : Text) (rs : List Text)
    → value r ≤ value best
    → IsMax best rs m
    → IsMax best (r ∷ rs) m
IsMax-kept best r m rs h (inl e, le, a) = (inl e, le, (omega arith, a))
IsMax-kept best r m rs h (inr i, le, a) = (inr (inr i), le, (omega arith, a))

max_from-IsMax : (best : Text) (rs : List Text) → IsMax best rs (max_from best rs)
unfolding max_from
max_from-IsMax best [] = (inl refl, omega arith, tt)
max_from-IsMax best (r ∷ rs) = elim (Bool-cases (ltb (value best) (value r))) [
  | inl greater ↦ subst (IsMax best (r ∷ rs)) (sym (max_from_greater best r rs greater)) (
      IsMax-greater best r (max_from r rs) rs (ltb→lt (value best) (value r) greater)
        (max_from-IsMax r rs))
  | inr kept ↦
      subst (IsMax best (r ∷ rs)) (sym (max_from_kept best r rs kept))
        (IsMax-kept best r (max_from best rs) rs (ground arith) (max_from-IsMax best rs))
]

module _ (r : Text) where
  revisions-listed : (es : List Text) → Any (λ (s : Text). s ≡ r) (revisions es) → Any (Names r) es
  unfolding revisions
  revisions-listed [] = λ h. h
  revisions-listed (e ∷ es) = elim (Bool-cases (isdigit (entry_name e))) [
    | inl number ↦ rw number (λ h. elim h [
      | inl same ↦ inl (same, subst (λ s. isdigit s ≡ true) same number)
      | inr later ↦ inr (revisions-listed es later)
    ])
    | inr other ↦ rw other (λ h. inr (revisions-listed es h))
  ]

  revisions-above :
      (es : List Text) → All (λ (s : Text). value s ≤ value r) (revisions es) → All (NotAbove r) es
  unfolding revisions
  revisions-above [] = λ h. tt
  revisions-above (e ∷ es) = elim (Bool-cases (isdigit (entry_name e))) [
    | inl number ↦ rw number (λ h. ((λ n. h.0), revisions-above es h.1))
    | inr other ↦ rw other (λ h. ((λ n. absurd (cc)), revisions-above es h))
  ]

newest-greatest :
    (rs : List Text) (r : Text)
    → newest rs ≡ some r
    → Any (λ (s : Text). s ≡ r) rs × All (λ (s : Text). value s ≤ value r) rs
unfolding newest
newest-greatest [] r h = absurd (cc)
newest-greatest (b ∷ bs) r h =
    let same : max_from b bs ≡ r = ground (arith, h) in
    let (from, le, above) = subst (IsMax b bs) same (max_from-IsMax b bs) in
    (elim from [ inl e ↦ inl (sym e) | inr i ↦ inr i ], (le, above))

-- The revision that is fetched is the number of an entry, and no entry has a greater one.
fetch_latest_chromium_revision-IsNewest :
    (entries : List Text) (r : Text)
    → fetch_latest_chromium_revision (some entries) ≡ some r
    → IsNewest entries r
unfolding fetch_latest_chromium_revision
fetch_latest_chromium_revision-IsNewest entries r h =
    let (listed, above) = newest-greatest (revisions entries) r h in
    record {
      listed = revisions-listed r entries listed;
      greatest = revisions-above r entries above;
    }

abbrev or_latest : Option Text → Text
or_latest none = codes "latest"
or_latest (some revision) = revision

-- What `install_browser` and `fetch` leave on a host without the browser, where `revision` is what was found.
record Fetched (revision : Text) (h : BrowserHost) (after : Bool × BrowserHost) : Type 0 where
  ready : after.0 ≡ true → after.1.executable ≡ true
  silent : after.0 ≡ true → after.1.hints ≡ h.hints
  hinted : after.0 ≡ false → after.1.hints ≡ revision ∷ h.hints
  staging : after.1.stagings ≡ h.stagings

failed_hint :
    (revision : Text) (there : Bool) (h : BrowserHost)
    → Fetched revision h (false, hint revision (record h { executable = there }))
failed_hint revision there h = record {
  ready = λ e. absurd (cc);
  silent = λ e. absurd (cc);
  hinted = λ e. refl;
  staging = refl;
}

install_browser-Fetched :
    (revision : Text) (d : Download) (h : BrowserHost)
    → Fetched revision h (install_browser revision d h)
unfolding install_browser
install_browser-Fetched revision download_fails h = failed_hint revision h.executable h
install_browser-Fetched revision (unpacking_fails there) h = failed_hint revision there h
install_browser-Fetched revision (unpacks true) h = record {
  ready = λ e. refl;
  silent = λ e. refl;
  hinted = λ e. absurd (cc);
  staging = refl;
}
install_browser-Fetched revision (unpacks false) h = failed_hint revision false h

-- What is left of a host by `fetch` and by what stands round it, by the answer and the hints.
record Left (e : Events) (h : BrowserHost) (after : Option Bool × BrowserHost) : Type 0 where
  ready : after.0 ≡ some true → after.1.executable ≡ true
  silent : after.0 ≡ some true → after.1.hints ≡ h.hints
  hinted :
      after.0 ≡ some false
      → after.1.hints ≡ or_latest (fetch_latest_chromium_revision e.entries) ∷ h.hints
  raised : after.0 ≡ none → (e.made ≡ false) × (after.1.hints ≡ h.hints)
  staging : e.removed ≡ true → after.1.stagings ≡ h.stagings
  at_most : after.1.stagings ≤ h.stagings + 1

some_injective : (a b : Bool) → some a ≡ some b → a ≡ b
some_injective a b e = ground (arith, e)

made_staging :
    (e : Events) (revision : Text) (body : BrowserHost → Bool × BrowserHost) (h : BrowserHost)
    → revision ≡ or_latest (fetch_latest_chromium_revision e.entries)
    → ((k : BrowserHost) → Fetched revision k (body k))
    → Left e h (in_staging true e.removed body h)
unfolding in_staging
made_staging e revision body h same f =
    let made = record h { stagings = h.stagings + 1 } in
    let b = f made in
    let kept : (body made).1.stagings ≡ h.stagings + 1 = b.staging in
    let answer = (body made).0 in
    elim (Bool-cases e.removed) [
      | inl gone ↦ rw gone (record {
        ready = λ a. b.ready (some_injective answer true a);
        silent = λ a. b.silent (some_injective answer true a);
        hinted =
            λ a. b.hinted (some_injective answer false a) ∙ ap (λ (r : Text). r ∷ h.hints) same;
        raised = λ a. absurd (cc);
        staging = λ a. omega arith;
        at_most = omega arith;
      })
      | inr stays ↦ rw stays (record {
        ready = λ a. b.ready (some_injective answer true a);
        silent = λ a. b.silent (some_injective answer true a);
        hinted =
            λ a. b.hinted (some_injective answer false a) ∙ ap (λ (r : Text). r ∷ h.hints) same;
        raised = λ a. absurd (cc);
        staging = λ a. absurd (cc);
        at_most = omega arith;
      })
    ]

in_staging-Left :
    (e : Events) (revision : Text) (body : BrowserHost → Bool × BrowserHost) (h : BrowserHost)
    → revision ≡ or_latest (fetch_latest_chromium_revision e.entries)
    → ((k : BrowserHost) → Fetched revision k (body k))
    → Left e h (in_staging e.made e.removed body h)
in_staging-Left e revision body h same f = elim (Bool-cases e.made) [
  | inl makes ↦
      subst (λ b. Left e h (in_staging b e.removed body h)) (sym makes)
        (made_staging e revision body h same f)
  | inr fails ↦
      subst (λ b. Left e h (in_staging b e.removed body h)) (sym fails)
        (unfold in_staging in
          record {
            ready = λ a. absurd (cc);
            silent = λ a. absurd (cc);
            hinted = λ a. absurd (cc);
            raised = λ a. (fails, refl);
            staging = λ a. refl;
            at_most = omega arith;
          })
]

fetch-Left : (e : Events) (h : BrowserHost) → Left e h (fetch e h)
unfolding fetch
fetch-Left e h = elim (Option-cases (fetch_latest_chromium_revision e.entries)) [
  | inl nothing ↦
      rw (fetch, nothing)
        (record {
          ready = λ a. absurd (cc);
          silent = λ a. absurd (cc);
          hinted = λ a. ap (λ (o : Option Text). or_latest o ∷ h.hints) (sym nothing);
          raised = λ a. absurd (cc);
          staging = λ a. refl;
          at_most = omega arith;
        })
  | inr (r, found) ↦
      rw (fetch, found)
        (in_staging-Left e r (install_browser r (e.download r)) h (ap or_latest (sym found))
          (install_browser-Fetched r (e.download r)))
]

locked-Left : (e : Events) (h : BrowserHost) → Left e h (locked e h)
unfolding locked
locked-Left e h = elim (Bool-cases h.executable) [
  | inl there ↦ rw there (record {
    ready = λ a. refl;
    silent = λ a. refl;
    hinted = λ a. absurd (cc);
    raised = λ a. absurd (cc);
    staging = λ a. refl;
    at_most = omega arith;
  })
  | inr absent ↦ simp absent (fetch-Left e h)
]

-- What a call leaves, by its answer and the hints that it printed.
pub record Ends (e : Events) (h : BrowserHost) (after : Option Bool × BrowserHost) : Type 0 where
  pub ready : after.0 ≡ some true → after.1.executable ≡ true
  pub silent : after.0 ≡ some true → after.1.hints ≡ h.hints
  pub hinted :
      after.0 ≡ some false
      → after.1.hints ≡ or_latest (fetch_latest_chromium_revision e.entries) ∷ h.hints
  pub raised : after.0 ≡ none → (e.made ≡ false) × (after.1.hints ≡ h.hints)
  pub staging : e.removed ≡ true → after.1.stagings ≡ h.stagings
  pub at_most : after.1.stagings ≤ h.stagings + 1
  pub unlocked : after.1.browser_lock ≡ false
  pub at_once : h.executable ≡ true → after ≡ (some true, h)

with_browser_lock-Ends :
    (e : Events) (h : BrowserHost) → h.executable ≡ false → Ends e h (with_browser_lock e h)
unfolding with_browser_lock
with_browser_lock-Ends e h absent =
    let f = locked-Left e (record h { executable = e.while_waiting; browser_lock = true }) in
    record {
      ready = f.ready;
      silent = f.silent;
      hinted = f.hinted;
      raised = f.raised;
      staging = f.staging;
      at_most = f.at_most;
      unlocked = refl;
      at_once = λ there. absurd (cc);
    }

-- Whatever fails, `ensure_chromium` leaves the lock free, and no directory of a download behind unless
-- that cannot be removed (then one). If it answers true, the browser can be executed and nothing was
-- printed; if it answers false, exactly one hint was printed, for the newest revision if that was found;
-- it raises only if the directory cannot be made, and prints nothing then. A browser that is there is not
-- touched. The lock is free before.
pub ensure_chromium-Ends :
    (e : Events) (h : BrowserHost) → h.browser_lock ≡ false → Ends e h (ensure_chromium e h)
unfolding ensure_chromium
ensure_chromium-Ends e h free = elim (Bool-cases h.executable) [
  | inl there ↦ rw there (record {
    ready = λ a. refl;
    silent = λ a. refl;
    hinted = λ a. absurd (cc);
    raised = λ a. absurd (cc);
    staging = λ a. refl;
    at_most = omega arith;
    unlocked = free;
    at_once = λ a. refl;
  })
  | inr absent ↦ simp absent (with_browser_lock-Ends e h absent)
]
