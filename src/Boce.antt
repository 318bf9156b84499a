-- ===== src/Boce.antt =====
-- socket_server/boce.py: the probes of a web page and what is counted. The answers of the page, the browser
-- and the clock are inputs; times are in a unit in which the rounding of `get_result` changes nothing.
pub mod Chromium
pub mod Counted
use socket_server.Prelude.{
  ℕ, ◌+◌, Bool, true, false, not, ◌||◌, Option, none, some, List, [], ◌∷◌, ltb, ◌==◌, if◌then◌else◌,
  length,
}
use socket_server.Prelude.Bytes.{Text, codes}
use socket_server.Prelude.Int.{ℤ, ltb_ℕℤ}
use socket_server.NetUtils.Tables.{has_part}

-- The counters of `RequestChecker` and of `PyppeteerChecker`.
pub record Counters : Type 0 where
  pub total : ℕ
  pub success : ℕ
  pub fail : ℕ
  pub time_consumed : ℕ

abbrev pub no_counts : Counters
no_counts = record { total = 0; success = 0; fail = 0; time_consumed = 0 }

-- One request: the status of the answer, `none` for an exception, and how long it took.
pub record Probe : Type 0 where
  pub status_code : Option ℕ
  pub duration : ℕ

abbrev pub is_ok : Option ℕ → Bool
is_ok none = false
is_ok (some code) = code == 200

-- `RequestChecker.run_single`
pub run_single : Probe → Counters → Counters
run_single p c =
    let ok = is_ok p.status_code in
    record {
      total = c.total + 1;
      success = if ok then c.success + 1 else c.success;
      fail = if ok then c.fail else c.fail + 1;
      time_consumed = c.time_consumed + p.duration;
    }

pub run_all : List Probe → Counters → Counters
run_all [] c = c
run_all (p ∷ ps) c = run_all ps (run_single p c)

-- `RequestChecker.run_multiple`, the requests in the order in which they are counted; `none` is the
-- ValueError of a pool without a thread.
pub run_multiple : ℤ → List Probe → Counters → Option Counters
run_multiple thread_count probes c = if ltb_ℕℤ 0 thread_count then some (run_all probes c) else none

pub record ProbeResult : Type 0 where
  pub total : ℕ
  pub success : ℕ
  pub fail : ℕ
  pub time : ℕ
  pub success_ratio : Text

pub data Mode : Type 0 where
  blocked redirect popup other : Mode

-- What one attempt with the browser meets: an exception with its text, or a page, with the addresses it was led to and the number of requests. An exception of
-- `page.goto` only ends the loading.
pub data Visit : Type 0 where
  failed : Text → Visit
  loaded : List Text → ℕ → Visit

abbrev pub is_empty {ℓ} : {A : Type ℓ} → List A → Bool
is_empty [] = true
is_empty (x ∷ xs) = false

-- The value that `PyppeteerChecker.run_single` returns for a page.
pub judge : Mode → List Text → ℕ → Bool
judge redirect jumped request_count = not (is_empty jumped) || ltb 1 request_count
judge _ jumped request_count = false

-- The end of an attempt without a value; `none` is None, which counts as a failure.
abbrev end_failed : ℕ → Counters → Option Bool × Counters
end_failed duration c = (
  none,
  record c { total = c.total + 1; fail = c.fail + 1; time_consumed = c.time_consumed + duration },
)

-- The attempt after a restart of the browser.
pub try_again : Mode → Visit → ℕ → Counters → Option Bool × Counters
try_again mode (failed e) duration c = end_failed duration c
try_again mode (loaded jumped request_count) duration c =
    (some (judge mode jumped request_count), c)

-- One task: its first attempt, the second one (if there is one), and how long it took.
pub record Task : Type 0 where
  pub first : Visit
  pub second : Visit
  pub duration : ℕ

pub first_try : Mode → Visit → Visit → ℕ → Counters → Option Bool × Counters
first_try mode (failed e) second duration c =
    if has_part (codes "Connection is closed") e
    then try_again mode second duration c
    else end_failed duration c
first_try mode (loaded jumped request_count) second duration c =
    (some (judge mode jumped request_count), c)

-- `PyppeteerChecker.run_single`
pub run_task : Mode → Task → Counters → Option Bool × Counters
run_task mode t c = first_try mode t.first t.second t.duration c

-- The results of the tasks, in the order of the tasks, and the counters behind them.
pub gather_tasks : Mode → List Task → Counters → List (Option Bool) × Counters
gather_tasks mode [] c = ([], c)
gather_tasks mode (t ∷ ts) c =
    let (r, c') = run_task mode t c in let (rs, last) = gather_tasks mode ts c' in (r ∷ rs, last)

abbrev pub is_success : Option Bool → Bool
is_success none = false
is_success (some b) = b

pub count_if : (Option Bool → Bool) → List (Option Bool) → ℕ
count_if f [] = 0
count_if f (r ∷ rs) = if f r then count_if f rs + 1 else count_if f rs

-- `PyppeteerChecker.run_multiple`, which took `elapsed`: whatever the tasks counted is replaced.
pub run_tasks : Mode → List Task → ℕ → Counters → Counters
run_tasks mode tasks elapsed c =
    let (results, _) = gather_tasks mode tasks c in
    record {
      success = count_if is_success results;
      fail = count_if (λ r. not (is_success r)) results;
      total = length results;
      time_consumed = elapsed;
    }

-- `BoceChecker`: the counters of its two checkers, the second one made when it is first used.
pub record BoceChecker : Type 0 where
  pub r_checker : Counters
  pub p_checker : Option Counters

abbrev new_checker : BoceChecker
new_checker = record { r_checker = no_counts; p_checker = none }

abbrev pub reset : Option Counters → Option Counters
reset none = none
reset (some c) = some no_counts

-- `BoceChecker.update`, as far as the counters go.
pub update : BoceChecker → BoceChecker
update b = record { r_checker = no_counts; p_checker = reset b.p_checker }

-- The arguments of `boce`, with what the page and the host do: the requests, or the tasks and the time
-- they take, whether the browser can be executed, and whether a browser and its loop are there or start.
pub record Call : Type 0 where
  pub mode : Mode
  pub thread_count : ℤ
  pub chromium_path : Text
  pub probes : List Probe
  pub tasks : List Task
  pub elapsed : ℕ
  pub executable : Bool
  pub browser_starts : Bool

-- `f"{success / total * 100:.2f}%"` is a parameter.
module _ (ratio : ℕ → ℕ → Text) where
  -- `get_result` of both checkers.
  pub get_result : Counters → ProbeResult
  get_result c = record {
    total = c.total;
    success = c.success;
    fail = c.fail;
    time = c.time_consumed;
    success_ratio = if c.total == 0 then codes "0.00%" else ratio c.success c.total;
  }

  -- The mode that only sends requests; `none` is an exception.
  pub boce_requests : Call → BoceChecker → Option ProbeResult × BoceChecker
  boce_requests call b = elim (run_multiple call.thread_count call.probes b.r_checker) [
    | none ↦ (none, b)
    | some c ↦ (some (get_result c), record b { r_checker = c })
  ]

  -- The checker of pages that is there, or a new one; `none` is its RuntimeError.
  pub page_checker : Call → Option Counters → Option Counters
  page_checker call (some c) = some c
  page_checker call none = if call.executable then some no_counts else none

  pub boce_tasks : Call → BoceChecker → Counters → Option ProbeResult × BoceChecker
  boce_tasks call b c =
      if call.browser_starts
      then (let c' = run_tasks call.mode call.tasks call.elapsed c in
          (some (get_result c'), record b { p_checker = some c' }))
      else (none, record b { p_checker = some c })

  pub boce_checked : Call → BoceChecker → Option Counters → Option ProbeResult × BoceChecker
  boce_checked call b none = (none, b)
  boce_checked call b (some c) = boce_tasks call b c

  pub boce_pages : Call → BoceChecker → Option ProbeResult × BoceChecker
  boce_pages call b =
      if is_empty call.chromium_path
      then (none, b)
      else boce_checked call b (page_checker call b.p_checker)

  abbrev pub choose : Mode → Call → BoceChecker → Option ProbeResult × BoceChecker
  choose blocked call b = boce_requests call b
  choose _ call b = boce_pages call b

  -- `BoceChecker.boce`
  pub boce : Call → BoceChecker → Option ProbeResult × BoceChecker
  boce call b = choose call.mode call (update b)
