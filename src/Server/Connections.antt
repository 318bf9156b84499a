-- ===== src/Server/Connections.antt =====
-- socket_server/server.py, lines 9 to 39: connections that come and go in any order.
use socket_server.Prelude.{
  ℕ, ◌+◌, ◌≤◌, ◌<◌, ◌≡◌, ap, ◌∙◌, List, ◌∷◌, ◌++◌, arith, length, length-append,
}
use socket_server.Server.{Tracker, get_idle_state, setup, finish}

-- The connections that are open, the clock, and the variables of the module.
pub record System : Type 0 where
  pub connections : List ℕ
  pub clock : ℕ
  pub tracker : Tracker

-- A connection comes under a fresh or used number, one of the open ones goes, or time passes.
pub data Step : System → System → Type 0 where
  comes :
      (c : ℕ) (s : System)
      → Step s (record s { connections = c ∷ s.connections; tracker = setup s.tracker })
  goes :
      (xs ys : List ℕ) (c : ℕ) (clock : ℕ) (t : Tracker)
      → Step
          (record { connections = xs ++ (c ∷ ys); clock = clock; tracker = t })
          (record { connections = xs ++ ys; clock = clock; tracker = finish clock t })
  passes : (n : ℕ) (s : System) → Step s (record s { clock = s.clock + n })

pub data Steps : System → System → Type 0 where
  stop : (s : System) → Steps s s
  step : (s t u : System) → Step s t → Steps t u → Steps s u

-- The count is the number of open connections; the last disconnection is not in the future.
pub record IsCounted (s : System) : Type 0 where
  pub counts : s.tracker.active_clients ≡ length s.connections
  pub past : s.tracker.last_disconnect_time ≤ s.clock

Step-IsCounted : (s t : System) → Step s t → IsCounted s → IsCounted t
unfolding setup finish
Step-IsCounted _ _ (comes c s) h = record {
  counts = ap (λ n. n + 1) h.counts ∙ omega arith;
  past = h.past;
}
Step-IsCounted _ _ (goes xs ys c clock t) h = record {
  counts = ground (arith, h.counts, length-append xs (c ∷ ys), length-append xs ys);
  past = ground (arith, h.past);
}
Step-IsCounted _ _ (passes n s) h = record { counts = h.counts; past = omega (arith, h.past) }

Steps-IsCounted : (s t : System) → Steps s t → IsCounted s → IsCounted t
Steps-IsCounted s _ (stop _) h = h
Steps-IsCounted s u (step _ t _ one more) h = Steps-IsCounted t u more (Step-IsCounted s t one h)

-- From any state in which the count is right, whatever connections come and go in whatever order: the
-- idle state names the number of the open connections, and its time is 0 while one is open.
pub Steps-get_idle_state :
    (s t : System)
    → Steps s t
    → IsCounted s
    → ((get_idle_state t.clock t.tracker).0 ≡ length t.connections)
      × (0 < length t.connections → (get_idle_state t.clock t.tracker).1 ≡ 0)
unfolding get_idle_state
Steps-get_idle_state s t path h =
    let counted = Steps-IsCounted s t path h in ground (arith, counted.counts)
