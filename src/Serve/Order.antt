-- ===== src/Serve/Order.antt =====
-- socket_server/cli.py, lines 8 to 47: what the start of the service leaves.
use socket_server.Prelude.{
  ◌≡◌, refl, sym, ap, ◌∙◌, subst, inl, inr, Bool, true, false, Option, none, some, List, [], ◌∷◌,
  if◌then◌else◌, Bool-cases,
}
use socket_server.Prelude.Bytes.{Text}
use socket_server.Prelude.Int.{ℤ, eq_ℕ}
use socket_server.HttpFile.Port.{
  Created, listens, os_error, other_error, Family, v4, v6, read_http_port,
}
use socket_server.HttpFile.Port.Started.{started, start_http_file_server-started}
use socket_server.Supervisor.Unit.{Heals, ensure_unit_correct-Heals}
use socket_server.Serve.{
  Limit, target_size, is_enough, raise_limit, firewall_off, State, Setup, serve_on, serve_or_raise,
  run_commands, on_machine, setup_environment, check_unit, start_http, start_tcp_server, cmd_serve,
}

abbrev pub enough : Option ℤ → Bool
enough none = false
enough (some n) = is_enough n

abbrev pub listens? : Created → Bool
listens? listens = true
listens? _ = false

-- A limit that is not enough, and can be read and written, is the target afterwards; one that was enough, or
-- cannot be read or written, is not touched.
pub record IsRaised (before after : Limit) : Type 0 where
  pub raised :
      (n : ℤ)
      → before.cur ≡ some n
      → is_enough n ≡ false
      → before.writable ≡ true
      → after ≡ record before { cur = some target_size }
  pub kept : enough before.cur ≡ true → after ≡ before
  pub fixed : before.writable ≡ false → after ≡ before
  pub unread : before.cur ≡ none → after ≡ before

raise_limit_at :
    (cur : Option ℤ) (writable : Bool)
    → IsRaised
        (record { cur = cur; writable = writable })
        (raise_limit (record { cur = cur; writable = writable }))
unfolding raise_limit
raise_limit_at none writable = record {
  raised = λ n e small w. absurd (cc);
  kept = λ e. refl;
  fixed = λ w. refl;
  unread = λ e. refl;
}
raise_limit_at (some n) writable = elim (Bool-cases (is_enough n)) [
  | inl much ↦ rw much (record {
    raised =
        λ m e small w. (let clash : true ≡ false = sym much ∙ ap enough e ∙ small in absurd (cc));
    kept = λ e. refl;
    fixed = λ w. refl;
    unread = λ e. refl;
  })
  | inr little ↦ rw little (elim (Bool-cases writable) [
    | inl can ↦ rw can (record {
      raised = λ m e small w. refl;
      kept = λ e. absurd (cc);
      fixed = λ w. absurd (cc);
      unread = λ e. absurd (cc);
    })
    | inr cannot ↦ rw cannot (record {
      raised = λ m e small w. absurd (cc);
      kept = λ e. refl;
      fixed = λ w. refl;
      unread = λ e. refl;
    })
  ])
]

raise_limit-IsRaised : (limit : Limit) → IsRaised limit (raise_limit limit)
raise_limit-IsRaised limit = raise_limit_at limit.cur limit.writable

-- The families that a call of `start_tcp_server` serves.
abbrev pub served : Created → Created → List Family
served listens listens = v4 ∷ v6 ∷ []
served listens _ = v4 ∷ v4 ∷ []
served _ _ = []

start_http-http :
    {W : Type 0} (int : Text → Option ℤ) (u : Setup) (s : State W)
    → s.http ≡ []
    → (start_http int u s).http
      ≡ (if eq_ℕ (read_http_port int u.config) 0 then [] else started u.http_v4 u.http_v6)
unfolding start_http
start_http-http int u s e =
    let port = read_http_port int u.config in
    let all = start_http_file_server-started port u.http_v4 u.http_v6 in
    elim (Bool-cases (eq_ℕ port 0)) [
      | inl off ↦ rw (off, start_http) e
      | inr on ↦ rw (on, start_http) (rw (e, all, on) refl)
    ]

serve_or_raise-served :
    {W : Type 0} (first second : Created) (t : State W)
    → t.tcp ≡ []
    → ((serve_or_raise first second t).0 ≡ listens? first)
      × ((serve_or_raise first second t).1 ≡ record t { tcp = served first second })
unfolding serve_or_raise serve_on
serve_or_raise-served listens listens t e = (refl, refl)
serve_or_raise-served listens os_error t e = (refl, refl)
serve_or_raise-served listens other_error t e = (refl, refl)
serve_or_raise-served os_error second t e = (refl, ap (λ (x : List Family). record t { tcp = x }) e)
serve_or_raise-served other_error second t e =
    (refl, ap (λ (x : List Family). record t { tcp = x }) e)

start_http_rest :
    {W : Type 0} (int : Text → Option ℤ) (u : Setup) (s : State W)
    → start_http int u s ≡ record s { http = (start_http int u s).http }
unfolding start_http
start_http_rest int u s = elim (Bool-cases (eq_ℕ (read_http_port int u.config) 0)) [
  | inl off ↦ rw off refl
  | inr on ↦ rw on refl
]

module _ {W : Type 0} (systemctl : List Text → W → ℤ × W) (system : Text → W → W)
    (int : Text → Option ℤ) where
  -- What the start leaves.
  pub record Serves (u : Setup) (s : State W) (after : Bool × State W) : Type 0 where
    pub answers : after.0 ≡ listens? u.tcp_v4
    pub tcp : after.1.tcp ≡ served u.tcp_v4 u.tcp_v6
    pub http :
        after.1.http
        ≡ (if eq_ℕ (read_http_port int u.config) 0 then [] else started u.http_v4 u.http_v6)
    pub rmem : IsRaised s.rmem_max after.1.rmem_max
    pub wmem : IsRaised s.wmem_max after.1.wmem_max
    pub unit :
        Heals systemctl (on_machine (run_commands system firewall_off) s.machine) after.1.machine

  -- The state before the TCP servers are made.
  abbrev before_tcp : Setup → State W → State W
  before_tcp u s = start_http int u (check_unit systemctl (setup_environment system u s))

  before_tcp-http :
      (u : Setup) (s : State W)
      → s.http ≡ []
      → (before_tcp u s).http
        ≡ (if eq_ℕ (read_http_port int u.config) 0 then [] else started u.http_v4 u.http_v6)
  unfolding check_unit setup_environment
  before_tcp-http u s e =
      start_http-http int u (check_unit systemctl (setup_environment system u s)) e

  before_tcp_rest :
      (u : Setup) (s : State W)
      → before_tcp u s ≡ record (check_unit systemctl (setup_environment system u s)) {
        http = (before_tcp u s).http;
      }
  before_tcp_rest u s = start_http_rest int u (check_unit systemctl (setup_environment system u s))

  -- Whatever the limits, the unit file, the configuration and the HTTP service do, the start ends with the
  -- TCP loops of the families whose servers can be created (with an exception if IPv4 cannot), with the HTTP
  -- service on its families unless its port is 0; a limit below the target is raised to it where it can be read
  -- and written, and any other limit is as it was; and the unit file starts the binary behind the link
  -- `current`, or nothing is changed in it because there is no such binary, no unit, or no right to write it.
  -- Nothing is served before.
  pub cmd_serve-Serves :
      (u : Setup) (s : State W)
      → s.http ≡ []
      → s.tcp ≡ []
      → Serves u s (cmd_serve systemctl system int u s)
  unfolding cmd_serve start_tcp_server check_unit setup_environment
  cmd_serve-Serves u s no_http no_tcp =
      let before = before_tcp u s in
      let http = before_tcp-http u s no_http in
      let rest = before_tcp_rest u s in
      let (answer, state) =
        serve_or_raise-served u.tcp_v4 u.tcp_v6 before
          (ap (λ (t : State W). t.tcp) rest ∙ no_tcp) in
      record {
        answers = answer;
        tcp = ap (λ (t : State W). t.tcp) state;
        http = ap (λ (t : State W). t.http) state ∙ http;
        rmem =
            subst (IsRaised s.rmem_max)
              (sym (ap (λ (t : State W). t.rmem_max) state ∙ ap (λ (t : State W). t.rmem_max) rest))
              (raise_limit-IsRaised s.rmem_max);
        wmem =
            subst (IsRaised s.wmem_max)
              (sym (ap (λ (t : State W). t.wmem_max) state ∙ ap (λ (t : State W). t.wmem_max) rest))
              (raise_limit-IsRaised s.wmem_max);
        unit =
            subst (Heals systemctl (on_machine (run_commands system firewall_off) s.machine))
              (sym (ap (λ (t : State W). t.machine) state ∙ ap (λ (t : State W). t.machine) rest))
              (ensure_unit_correct-Heals systemctl
                (on_machine (run_commands system firewall_off) s.machine)).0;
      }
