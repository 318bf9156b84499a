-- ===== src/Listen/Stopped.antt =====
-- socket_server/handlers.py, lines 448 to 463, and socket_server/socket_listen.py, lines 105 to 118: how a
-- listener is stopped.
use socket_server.Prelude.{
  ℕ, zero, suc, ◌≡◌, refl, sym, subst, ◌≢◌, inl, inr, true, false, none, some, List, [], ◌∷◌, arith,
  if◌then◌else◌, Bool-cases, Option-cases,
}
use socket_server.Listen.{
  Ports, Listening, SocketServerListen, Reply, okay, not_started, still_bound, is_empty,
  stop_server, await_free, stop_listening,
}

empty_lem {ℓ} : {A : Type ℓ} (xs : List A) → is_empty xs ≡ true → xs ≡ []
empty_lem [] h = refl
empty_lem (x ∷ xs) h = cc

not_empty {ℓ} : {A : Type ℓ} (xs : List A) → is_empty xs ≡ false → xs ≢ []
not_empty [] h e = cc
not_empty (x ∷ xs) h e = cc

module _ {W : Type 0} (os : Ports W) where
  open os use {pid, pause}

  -- The port is held at each of `n` looks.
  abbrev IsHeld : ℕ → ℕ → W → Type 0
  IsHeld zero port w = Unit
  IsHeld (suc n) port w = (pid port w ≢ []) × IsHeld n port (pause w)

  -- What command 175 leaves: everything as it was without a listener; or no listener, with its port
  -- free; or no listener, with its port held at each of three looks.
  pub data StopLeaves (s : Listening W) (r : Reply × Listening W) : Type 0 where
    idle : s.ss ≡ none → r ≡ (not_started, s) → StopLeaves s r
    freed :
        (l : SocketServerListen)
        → s.ss ≡ some l
        → r.0 ≡ okay
        → (r.1).ss ≡ none
        → pid l.port (r.1).world ≡ []
        → StopLeaves s r
    held :
        (l : SocketServerListen)
        → s.ss ≡ some l
        → r.0 ≡ still_bound
        → (r.1).ss ≡ none
        → IsHeld 3 l.port (stop_server os l s.world)
        → StopLeaves s r

  await_free-free :
      (n port : ℕ) (w : W)
      → (await_free os n port w).0 ≡ true
      → pid port (await_free os n port w).1 ≡ []
  unfolding await_free
  await_free-free zero port w h = cc
  await_free-free (suc n) port w h = elim (Bool-cases (is_empty (pid port w))) [
    | inl free ↦ rw free (empty_lem (pid port w) free)
    | inr taken ↦ rw taken (await_free-free n port (pause w) (rw taken at h))
  ]

  await_free-IsHeld : (n port : ℕ) (w : W) → (await_free os n port w).0 ≡ false → IsHeld n port w
  unfolding await_free
  await_free-IsHeld zero port w h = tt
  await_free-IsHeld (suc n) port w h = elim (Bool-cases (is_empty (pid port w))) [
    | inl free ↦ absurd (let bad = rw free at h in cc)
    | inr taken ↦ (not_empty (pid port w) taken, await_free-IsHeld n port (pause w) (rw taken at h))
  ]

  stopped-Leaves :
      (s : Listening W) (l : SocketServerListen)
      → s.ss ≡ some l
      → StopLeaves s (
        if (await_free os 3 l.port (stop_server os l s.world)).0 then okay else still_bound,
        record { ss = none; world = (await_free os 3 l.port (stop_server os l s.world)).1 },
      )
  stopped-Leaves s l e =
      let w = stop_server os l s.world in
      elim (Bool-cases (await_free os 3 l.port w).0) [
        | inl free ↦ freed l e (rw free) refl (await_free-free 3 l.port w free)
        | inr taken ↦ held l e (rw taken) refl (await_free-IsHeld 3 l.port w taken)
      ]

  -- On every branch: command 175 leaves what `StopLeaves` says.
  pub stop_listening-StopLeaves : (s : Listening W) → StopLeaves s (stop_listening os s)
  unfolding stop_listening
  stop_listening-StopLeaves s = elim (Option-cases s.ss) [
    | inl none_there ↦ idle none_there (ground (arith, none_there))
    | inr (l, there) ↦
        let w = stop_server os l s.world in
        let stopped : stop_listening os s ≡ (
          if (await_free os 3 l.port w).0 then okay else still_bound,
          record { ss = none; world = (await_free os 3 l.port w).1 },
        ) =
          ground (arith, there) in
        subst (λ r. StopLeaves s r) (sym stopped) (stopped-Leaves s l there)
  ]
