-- ===== src/Boce/Counted.antt =====
-- socket_server/boce.py: what a call of `boce` counts.
use socket_server.Prelude.{
  ℕ, ◌+◌, ◌≡◌, refl, ◌∙◌, subst, inl, inr, Bool, true, false, not, ◌&&◌, ◌||◌, Option, none, some,
  List, [], ◌∷◌, arith, ltb, if◌then◌else◌, Bool-cases, length,
}
use socket_server.Prelude.Bytes.{Text, codes}
use socket_server.Prelude.Int.{ltb_ℕℤ}
use socket_server.Boce.{
  is_empty, Counters, no_counts, Probe, is_ok, run_single, run_all, run_multiple, ProbeResult, Mode,
  blocked, redirect, popup, other, Visit, failed, loaded, judge, Task, try_again, first_try,
  run_task, gather_tasks, is_success, count_if, run_tasks, BoceChecker, update, Call, get_result,
  boce_requests, page_checker, boce_tasks, boce_pages, boce_checked, choose, boce,
}
use socket_server.NetUtils.Tables.{has_part}

-- The requests that were answered with 200.
pub answered : List Probe → ℕ
answered [] = 0
answered (p ∷ ps) = if is_ok p.status_code then answered ps + 1 else answered ps

total_time : List Probe → ℕ
total_time [] = 0
total_time (p ∷ ps) = p.duration + total_time ps

-- The page that a task looks at in the end: that of the second attempt if the browser was gone in the first.
abbrev retried : Visit → Visit → Visit
retried (failed e) second = if has_part (codes "Connection is closed") e then second else failed e
retried (loaded jumped n) second = loaded jumped n

abbrev page_of : Task → Visit
page_of t = retried t.first t.second

-- It was led to another address, or more than one request was made.
leads_on : Visit → Bool
leads_on (failed e) = false
leads_on (loaded [] n) = ltb 1 n
leads_on (loaded (x ∷ xs) n) = true

-- What counts as a success in a mode with the browser: only redirections are looked for.
goes_well : Mode → Visit → Bool
goes_well redirect v = leads_on v
goes_well _ v = false

pub good_tasks : Mode → List Task → ℕ
good_tasks mode [] = 0
good_tasks mode (t ∷ ts) =
    if goes_well mode (page_of t) then good_tasks mode ts + 1 else good_tasks mode ts

run_all-counts :
    (ps : List Probe) (c : Counters)
    → ((run_all ps c).total ≡ c.total + length ps)
      × ((run_all ps c).success ≡ c.success + answered ps)
      × ((run_all ps c).fail + answered ps ≡ c.fail + length ps)
      × ((run_all ps c).time_consumed ≡ c.time_consumed + total_time ps)
unfolding run_all run_single answered total_time
run_all-counts [] c = (omega arith, omega arith, omega arith, omega arith)
run_all-counts (p ∷ ps) c =
    let (a, b, d, e) = run_all-counts ps (run_single p c) in
    (omega arith, ground arith, ground arith, omega arith)

-- What a result says of `count` probes of which `good` went well.
pub record Counts (count good : ℕ) (r : ProbeResult) : Type 0 where
  pub total : r.total ≡ count
  pub success : r.success ≡ good
  pub balance : r.success + r.fail ≡ count

judge-goes_well :
    (mode : Mode) (jumped : List Text) (n : ℕ)
    → judge mode jumped n ≡ goes_well mode (loaded jumped n)
unfolding judge goes_well leads_on
judge-goes_well redirect [] n = refl
judge-goes_well redirect (x ∷ xs) n = refl
judge-goes_well blocked jumped n = refl
judge-goes_well popup jumped n = refl
judge-goes_well other jumped n = refl

failed-goes_well : (mode : Mode) (e : Text) → false ≡ goes_well mode (failed e)
unfolding goes_well leads_on
failed-goes_well redirect e = refl
failed-goes_well blocked e = refl
failed-goes_well popup e = refl
failed-goes_well other e = refl

try_again-goes_well :
    (mode : Mode) (v : Visit) (duration : ℕ) (c : Counters)
    → is_success (try_again mode v duration c).0 ≡ goes_well mode v
unfolding try_again
try_again-goes_well mode (failed e) duration c = failed-goes_well mode e
try_again-goes_well mode (loaded jumped n) duration c = judge-goes_well mode jumped n

-- A task returns what its page says, and none, as a failure, where it ended with an exception.
first_try-goes_well :
    (mode : Mode) (v w : Visit) (duration : ℕ) (c : Counters)
    → is_success (first_try mode v w duration c).0 ≡ goes_well mode (retried v w)
unfolding first_try
first_try-goes_well mode (failed e) w duration c =
    elim (Bool-cases (has_part (codes "Connection is closed") e)) [
      | inl gone ↦ rw gone (try_again-goes_well mode w duration c)
      | inr else_ ↦ rw else_ (failed-goes_well mode e)
    ]
first_try-goes_well mode (loaded jumped n) w duration c = judge-goes_well mode jumped n

gather_tasks-counts :
    (mode : Mode) (ts : List Task) (c : Counters)
    → (length (gather_tasks mode ts c).0 ≡ length ts)
      × (count_if is_success (gather_tasks mode ts c).0 ≡ good_tasks mode ts)
unfolding gather_tasks good_tasks count_if run_task
gather_tasks-counts mode [] c = (refl, refl)
gather_tasks-counts mode (t ∷ ts) c =
    let (a, b) = gather_tasks-counts mode ts (run_task mode t c).1 in
    let well = first_try-goes_well mode t.first t.second t.duration c in
    (omega arith, rw (well, b) refl)

count_if-not :
    (rs : List (Option Bool))
    → count_if is_success rs + count_if (λ r. not (is_success r)) rs ≡ length rs
unfolding count_if
count_if-not [] = refl
count_if-not (r ∷ rs) =
    let rest = count_if-not rs in
    elim (Bool-cases (is_success r)) [
      | inl good ↦ rw good (omega arith)
      | inr bad ↦ rw bad (omega arith)
    ]

abbrev is_some : Option Counters → Bool
is_some none = false
is_some (some c) = true

-- How many probes a call asks for, and how many of them go well.
abbrev pub asked : Mode → Call → ℕ
asked blocked call = length call.probes
asked _ call = length call.tasks

abbrev pub good : Mode → Call → ℕ
good blocked call = answered call.probes
good mode call = good_tasks mode call.tasks

-- There are threads for the requests; the path is not empty, the browser is executable unless it was used
-- before, and it starts.
abbrev pub can_run : Mode → Call → BoceChecker → Bool
can_run blocked call b = ltb_ℕℤ 0 call.thread_count
can_run _ call b =
    not (is_empty call.chromium_path)
    && ((is_some b.p_checker || call.executable) && call.browser_starts)

-- An answer with these counts, or none.
abbrev pub Answers : Bool → ℕ → ℕ → Option ProbeResult → Type 0
Answers false count good o = o ≡ none
Answers true count good o = (r : ProbeResult) × (o ≡ some r) × Counts count good r

run_all-Counts :
    (ratio : ℕ → ℕ → Text) (ps : List Probe)
    → Counts (length ps) (answered ps) (get_result ratio (run_all ps no_counts))
unfolding get_result
run_all-Counts ratio ps =
    let (t, s, f, _) = run_all-counts ps no_counts in
    record { total = omega arith; success = omega arith; balance = omega arith }

module _ (ratio : ℕ → ℕ → Text) where
  boce_requests-result :
      (call : Call) (b : BoceChecker)
      → ltb_ℕℤ 0 call.thread_count ≡ true
      → (boce_requests ratio call (update b)).0
        ≡ some (get_result ratio (run_all call.probes no_counts))
  unfolding boce_requests run_multiple update
  boce_requests-result call b threads = rw (boce_requests, run_multiple, threads) refl

  boce_requests-none :
      (call : Call) (b : BoceChecker)
      → ltb_ℕℤ 0 call.thread_count ≡ false
      → (boce_requests ratio call (update b)).0 ≡ none
  unfolding boce_requests run_multiple update
  boce_requests-none call b threads = rw (boce_requests, run_multiple, threads) refl

  boce_requests-Answers :
      (call : Call) (b : BoceChecker)
      → Answers
          (ltb_ℕℤ 0 call.thread_count)
          (length call.probes)
          (answered call.probes)
          (boce_requests ratio call (update b)).0
  boce_requests-Answers call b = elim (Bool-cases (ltb_ℕℤ 0 call.thread_count)) [
    | inl threads ↦ rw threads (
      get_result ratio (run_all call.probes no_counts),
      boce_requests-result call b threads,
      run_all-Counts ratio call.probes,
    )
    | inr no_threads ↦ rw no_threads (boce_requests-none call b no_threads)
  ]

  boce_tasks-Answers :
      (call : Call) (b : BoceChecker) (c : Counters)
      → Answers call.browser_starts
          (length call.tasks)
          (good_tasks call.mode call.tasks)
          (boce_tasks ratio call b c).0
  unfolding boce_tasks run_tasks get_result
  boce_tasks-Answers call b c = elim (Bool-cases call.browser_starts) [
    | inl starts ↦
        let (l, n) = gather_tasks-counts call.mode call.tasks c in
        simp starts (
          get_result ratio (run_tasks call.mode call.tasks call.elapsed c),
          refl,
          record {
            total = l;
            success = n;
            balance = count_if-not (gather_tasks call.mode call.tasks c).0 ∙ l;
          },
        )
    | inr stays ↦ simp stays refl
  ]

  -- The checker that is there, the one that is made, or none.
  checked-Answers :
      (call : Call) (b : BoceChecker) (o : Option Counters)
      → Answers
          (is_some o && call.browser_starts)
          (length call.tasks)
          (good_tasks call.mode call.tasks)
          (boce_checked ratio call b o).0
  unfolding boce_checked
  checked-Answers call b none = refl
  checked-Answers call b (some c) = boce_tasks-Answers call b c

  is_some-page_checker :
      (call : Call) (o : Option Counters)
      → (is_some o || call.executable) ≡ is_some (page_checker ratio call o)
  unfolding page_checker
  is_some-page_checker call none = elim (Bool-cases call.executable) [
    | inl runs ↦ simp runs refl
    | inr not_there ↦ simp not_there refl
  ]
  is_some-page_checker call (some c) = refl

  boce_pages-Answers :
      (call : Call) (b : BoceChecker)
      → Answers
          (can_run redirect call b)
          (length call.tasks)
          (good_tasks call.mode call.tasks)
          (boce_pages ratio call b).0
  unfolding boce_pages
  boce_pages-Answers call b = elim (Bool-cases (is_empty call.chromium_path)) [
    | inl empty ↦ rw empty refl
    | inr path ↦
        rw (path, is_some-page_checker call b.p_checker)
          (checked-Answers call b (page_checker ratio call b.p_checker))
  ]

  pages_in :
      (mode : Mode) (call : Call) (b : BoceChecker)
      → call.mode ≡ mode
      → Answers
          (can_run redirect call b)
          (length call.tasks)
          (good_tasks mode call.tasks)
          (boce_pages ratio call b).0
  pages_in mode call b m =
      subst
        (λ x.
          Answers (can_run redirect call b) (length call.tasks) (good_tasks x call.tasks)
            (boce_pages ratio call b).0)
        m (boce_pages-Answers call b)

  choose-Answers :
      (mode : Mode) (call : Call) (b : BoceChecker)
      → call.mode ≡ mode
      → Answers
          (can_run mode call (update b))
          (asked mode call)
          (good mode call)
          (choose ratio mode call (update b)).0
  choose-Answers blocked call b m = boce_requests-Answers call b
  choose-Answers redirect call b m = pages_in redirect call (update b) m
  choose-Answers popup call b m = pages_in popup call (update b) m
  choose-Answers other call b m = pages_in other call (update b) m

  -- Whatever was counted before, by this call's mode: `boce` answers exactly if it can run, with one count for
  -- each probe, of which those are successes that were answered with 200, or that were redirected in the
  -- mode for that (and none in another mode with the browser), and the others failures.
  pub boce-Answers :
      (call : Call) (b : BoceChecker)
      → Answers
          (can_run call.mode call (update b))
          (asked call.mode call)
          (good call.mode call)
          (boce ratio call b).0
  unfolding boce
  boce-Answers call b = choose-Answers call.mode call b refl
