-- ===== src/Tests/Probed.antt =====
-- Runs of the probes of a page and of the download of the browser.
use socket_server.Prelude.{refl, true, false, some, List, [], ◌∷◌}
use socket_server.Prelude.Bytes.{codes, eqb}
use socket_server.Prelude.Int.{pos}
use socket_server.Boce.{Task, BoceChecker, Call, redirect, failed, loaded, boce, update}
use socket_server.Boce.Counted.{Answers, can_run, good, boce-Answers}
use socket_server.Boce.Chromium.{BrowserHost, Events, unpacks, ensure_chromium}
use socket_server.Boce.Chromium.Ready.{Ends, ensure_chromium-Ends}

-- The first task finds the browser closed and is redirected at its second attempt, the other is not.
abbrev two_tasks : List Task
two_tasks =
    record {
      first = failed (codes "Connection is closed.");
      second = loaded (codes "http://b/" ∷ []) 2;
      duration = 9;
    }
    ∷ record { first = loaded [] 1; second = loaded [] 1; duration = 5 }
    ∷ []

abbrev redirects : Call
redirects = record {
  mode = redirect;
  thread_count = pos 1;
  chromium_path = codes "/opt/socket/chrome-linux/chrome";
  probes = [];
  tasks = two_tasks;
  elapsed = 12;
  executable = true;
  browser_starts = true;
}

-- Counters of an earlier call.
abbrev used : BoceChecker
used = record {
  r_checker = record { total = 4; success = 1; fail = 3; time_consumed = 90 };
  p_checker = some (record { total = 2; success = 2; fail = 0; time_consumed = 40 });
}

boce-Answers_example :
    Answers
      (can_run redirect redirects (update used))
      2
      (good redirect redirects)
      (boce (λ s t. codes "50.00%") redirects used).0
boce-Answers_example = boce-Answers (λ s t. codes "50.00%") redirects used

abbrev without_browser : BrowserHost
without_browser = record { executable = false; stagings = 0; browser_lock = false; hints = [] }

abbrev listing : Events
listing = record {
  made = true;
  while_waiting = false;
  removed = true;
  entries = some (codes "1095492/" ∷ codes "LAST_CHANGE" ∷ codes "1100000/" ∷ []);
  download = λ revision. unpacks (eqb revision (codes "1100000"));
}

ensure_chromium-Ends_example :
    Ends listing without_browser (ensure_chromium listing without_browser)
ensure_chromium-Ends_example = ensure_chromium-Ends listing without_browser refl
