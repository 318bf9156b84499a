-- ===== src/Capture/Registry/Calls.antt =====
-- socket_server/capture.py, lines 482 to 621: the registry after a start and after a stop.
use socket_server.Prelude.{
  ℕ, ◌≡◌, refl, sym, ◌∙◌, subst, inl, inr, Bool, true, false, not, Option, none, some, arith,
  Option-cases,
}
use socket_server.Prelude.Bytes.{Text, eqb, eqb_refl}
use socket_server.Prelude.Dict.{lookup, insert, lookup-insert, lookup-erase}
use socket_server.Capture.Registry.{
  Ready, ready, failed, Processes, Captures, is_clean, stop_capture_entry, reclaim, replace_old,
  register, launch, choose_iface, tcpdump_start, stop_registered, tcpdump_stop,
}

module _ {W : Type 0} (os : Processes W) where
  -- `_stop_capture_entry` says true exactly when the process is not alive any more.
  stop_capture_entry-alive :
      (proc : ℕ) (w : W)
      → let (stopped, w') = stop_capture_entry os proc w in os.is_alive proc w' ≡ not stopped
  unfolding stop_capture_entry
  stop_capture_entry-alive proc w = ground arith

  -- What a start leaves under a path, by what it returned.
  abbrev pub StartLeaves : Text → Bool × Captures W → Type 0
  StartLeaves path (true, s) = (proc : ℕ) × (lookup path s.captures ≡ some proc)
  StartLeaves path (false, s) = lookup path s.captures ≡ none

  replace_old-lookup :
      (path : Text) (s : Captures W) → lookup path (replace_old os path s).captures ≡ none
  unfolding replace_old
  replace_old-lookup path s = elim (Option-cases (lookup path s.captures)) [
    | inl free ↦ rw (free, replace_old) free
    | inr (old, known) ↦
        rw (known, replace_old) (rw (lookup-erase path path s.captures, eqb_refl path) refl)
  ]

  register-StartLeaves :
      (path : Text) (proc : ℕ) (s : Captures W)
      → lookup path s.captures ≡ none
      → StartLeaves path (register os path proc s)
  unfolding register
  register-StartLeaves path proc s free = go (os.await_ready proc s.world)
    where
      go :
          (r : Ready × W)
          → StartLeaves path (elim r.0 [
            | ready ↦ (true, record { captures = insert path proc s.captures; world = r.1 })
            | failed ↦ (false, record s { world = reclaim os proc r.1 })
          ])
      go (ready, w) = (proc, rw (lookup-insert path path proc s.captures, eqb_refl path) refl)
      go (failed, w) = free

  register_other :
      (path : Text) (proc : ℕ) (other : Text) (s : Captures W)
      → eqb other path ≡ false
      → lookup other (register os path proc s).1.captures ≡ lookup other s.captures
  unfolding register
  register_other path proc other s ne = ground (arith, lookup-insert other path proc s.captures)

  -- What a stop of `path` leaves there and under another path.
  abbrev pub StopLeaves : Text → Text → Captures W → Bool × Captures W → Type 0
  StopLeaves path other s (stopped, s') =
      (stopped ≡ true → lookup path s'.captures ≡ none)
      × ((proc : ℕ)
          → lookup path s.captures ≡ some proc
          → os.is_alive proc s'.world ≡ true
          → (stopped ≡ false)
            × (lookup path s'.captures ≡ some proc)
            × (s'.world ≡ os.terminate_join proc (os.stop_join proc s.world)))
      × ((proc : ℕ)
          → lookup path s.captures ≡ some proc
          → os.is_alive proc s'.world ≡ false
          → (stopped ≡ is_clean os (os.exitcode proc s'.world)) × (lookup path s'.captures ≡ none))
      × (lookup path s.captures ≡ none → (stopped ≡ true) × (s' ≡ s))
      × (eqb other path ≡ false → lookup other s'.captures ≡ lookup other s.captures)

  launch-StartLeaves :
      (eth path : Text) (s : Captures W)
      → lookup path s.captures ≡ none
      → StartLeaves path (launch os eth path s)
  unfolding launch
  launch-StartLeaves eth path s free = elim (Option-cases (os.spawn eth path s.world).0) [
    | inl not_started ↦ rw (not_started, launch) free
    | inr (proc, started) ↦
        rw (started, launch)
          (register-StartLeaves path proc (record s { world = (os.spawn eth path s.world).1 }) free)
  ]

  launch_other :
      (eth path other : Text) (s : Captures W)
      → eqb other path ≡ false
      → lookup other (launch os eth path s).1.captures ≡ lookup other s.captures
  unfolding launch
  launch_other eth path other s ne = elim (Option-cases (os.spawn eth path s.world).0) [
    | inl not_started ↦ rw (not_started, launch)
    | inr (proc, started) ↦
        rw (started, launch)
          (register_other path proc other (record s { world = (os.spawn eth path s.world).1 }) ne)
  ]

  replace_old_other :
      (path other : Text) (s : Captures W)
      → eqb other path ≡ false
      → lookup other (replace_old os path s).captures ≡ lookup other s.captures
  unfolding replace_old
  replace_old_other path other s ne = elim (Option-cases (lookup path s.captures)) [
    | inl free ↦ rw (free, replace_old)
    | inr (old, known) ↦ rw (known, replace_old) (rw (lookup-erase other path s.captures, ne) refl)
  ]

  -- A start on a network card (a given one, or that of the default route) registers the path exactly
  -- if it returns true, whatever capture was there before, and touches no other path.
  pub tcpdump_start-StartLeaves :
      (eth : Option Text) (path iface : Text) (s : Captures W)
      → choose_iface os eth s.world ≡ some iface
      → let started = tcpdump_start os eth path s in
        StartLeaves path started
        × ((other : Text)
            → eqb other path ≡ false
            → lookup other started.1.captures ≡ lookup other s.captures)
  unfolding tcpdump_start
  tcpdump_start-StartLeaves eth path iface s chosen =
      let cleared = record s { world = os.remove_file path s.world } in
      rw (chosen, tcpdump_start)
        (
          launch-StartLeaves iface path (replace_old os path cleared)
              (replace_old-lookup path cleared),
          λ other ne.
              launch_other iface path other (replace_old os path cleared) ne
              ∙ replace_old_other path other cleared ne,
        )

  still_there :
      (path : Text) (proc p : ℕ) (s : Captures W)
      → lookup path s.captures ≡ some proc
      → p ≡ proc
      → os.is_alive p (stop_registered os path proc s).1.world ≡ true
      → ((stop_registered os path proc s).0 ≡ false)
        × (lookup path (stop_registered os path proc s).1.captures ≡ some p)
        × ((stop_registered os path proc s).1.world ≡ os.terminate_join p (os.stop_join p s.world))
  unfolding stop_registered stop_capture_entry
  still_there path proc p s known same alive =
      ground (arith, known, same, stop_capture_entry-alive proc s.world)

  ended :
      (path : Text) (proc : ℕ) (s : Captures W)
      → os.is_alive proc (stop_registered os path proc s).1.world ≡ false
      → ((stop_registered os path proc s).0
          ≡ is_clean os (os.exitcode proc (stop_registered os path proc s).1.world))
        × (lookup path (stop_registered os path proc s).1.captures ≡ none)
  unfolding stop_registered
  ended path proc s dead = ground (
    arith,
    dead,
    eqb_refl path,
    lookup-erase path path s.captures,
    stop_capture_entry-alive proc s.world,
  )

  stop_registered_lem :
      (path other : Text) (proc : ℕ) (s : Captures W)
      → lookup path s.captures ≡ some proc
      → StopLeaves path other s (stop_registered os path proc s)
  unfolding stop_registered
  stop_registered_lem path other proc s known = (
    ground (arith, eqb_refl path, lookup-erase path path s.captures),
    λ p there alive.
        let same : p ≡ proc = ground (arith, there, known) in
        still_there path proc p s known same alive,
    λ p there dead.
        let same : p ≡ proc = ground (arith, there, known) in
        subst
          (λ x.
            ((stop_registered os path proc s).0
              ≡ is_clean os (os.exitcode x (stop_registered os path proc s).1.world))
            × (lookup path (stop_registered os path proc s).1.captures ≡ none))
          (sym same)
          (ended path proc s (
            subst (λ x. os.is_alive x (stop_registered os path proc s).1.world ≡ false) same dead)),
    λ free. absurd (ground (arith, free, known)),
    ground (arith, lookup-erase other path s.captures),
  )

  -- A stop of a path that is not registered returns true and changes nothing. Of a registered one: if its
  -- process has ended after it, the path is not registered any more, and the answer is whether the exit
  -- code was 0 or is not known; if it is still alive, it was told to stop and then terminated, the stop
  -- returned false, and the process is still registered, so that it can be stopped again. No other path
  -- is touched.
  pub tcpdump_stop-StopLeaves :
      (path other : Text) (s : Captures W) → StopLeaves path other s (tcpdump_stop os path s)
  unfolding tcpdump_stop
  tcpdump_stop-StopLeaves path other s = elim (Option-cases (lookup path s.captures)) [
    | inl free ↦ ground arith
    | inr (proc, known) ↦
        subst (StopLeaves path other s) (rw (known, tcpdump_stop))
          (stop_registered_lem path other proc s known)
  ]
