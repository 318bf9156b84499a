-- ===== src/NetUtils/Waits.antt =====
-- socket_server/netutils.py, lines 141 to 176: the waits end, and say why.
use socket_server.Prelude.{
  ℕ, zero, suc, ◌+◌, ◌-◌, ◌*◌, ◌/◌, ◌≤◌, ◌<◌, ◌≡◌, refl, subst, inl, inr, Bool, true, false, Option,
  some, arith, leb, leb→le, Bool-cases,
}
use native.Mathlib.Nat.{div-add-mod, mod-lt, mul_comm}
use socket_server.NetUtils.{Clock, is_accepted, wait_loop, wait_for}

leb-false : (a b : ℕ) → leb a b ≡ false → b < a
leb-false a b h = ground arith

suc_mul : (fuel step : ℕ) → suc fuel * step ≡ fuel * step + step
suc_mul fuel step = grind arith

enough_rounds : (step timeout : ℕ) → 0 < step → timeout < (timeout / step + 1) * step
enough_rounds step timeout h = omega (
  arith,
  div-add-mod timeout step,
  mod-lt timeout h,
  suc_mul (timeout / step) step,
  mul_comm step (timeout / step),
)

module _ {W A : Type 0} (clock : Clock W) (func : W → Option A × W) (accept : A → Bool) where
  open clock use {now, sleep}

  -- Time does not run backwards, and a pause lasts as long as it says.
  pub record RunsForward : Type 0 where
    pub polled : (w : W) → now w ≤ now (func w).1
    pub slept : (n : ℕ) (w : W) → now w + n ≤ now (sleep n w)

  -- From `w` to `u` every value was refused or an exception, with a pause behind it.
  pub data Refused (step : ℕ) : W → W → Type 0 where
    here : (w : W) → Refused step w w
    again :
        (w u : W)
        → is_accepted clock func accept (func w).0 ≡ false
        → Refused step (sleep step (func w).1) u
        → Refused step w u

  -- How a wait ends: the value that came last was accepted, in time; or the time was over.
  pub data Ends (begun step timeout : ℕ) (w : W) (r : Option (Bool × W)) : Type 0 where
    met :
        (u : W)
        → Refused step w u
        → now u - begun ≤ timeout
        → is_accepted clock func accept (func u).0 ≡ true
        → r ≡ some (true, (func u).1)
        → Ends begun step timeout w r
    over :
        (u : W)
        → Refused step w u
        → timeout < now u - begun
        → r ≡ some (false, u)
        → Ends begun step timeout w r

  later :
      (begun step timeout : ℕ) (w : W) (r : Option (Bool × W))
      → is_accepted clock func accept (func w).0 ≡ false
      → Ends begun step timeout (sleep step (func w).1) r
      → Ends begun step timeout w r
  later begun step timeout w r no_luck (met u refused in_time lucky e) =
      met u (again w u no_luck refused) in_time lucky e
  later begun step timeout w r no_luck (over u refused late e) =
      over u (again w u no_luck refused) late e

  wait_loop-Ends :
      RunsForward
      → (fuel begun step timeout : ℕ) (w : W) → begun ≤ now w
      → timeout < (now w - begun) + fuel * step
      → Ends begun step timeout w (wait_loop clock func accept (suc fuel) begun step timeout w)
  unfolding wait_loop
  wait_loop-Ends runs zero begun step timeout w h enough =
      let late : leb (now w - begun) timeout ≡ false = ground arith in
      rw late (over w (here w) (leb-false _ _ late) refl)
  wait_loop-Ends runs (suc fuel) begun step timeout w h enough =
      elim (Bool-cases (leb (now w - begun) timeout)) [
        | inr late ↦ rw late (over w (here w) (leb-false _ _ late) refl)
        | inl in_time ↦ elim (Bool-cases (is_accepted clock func accept (func w).0)) [
          | inl lucky ↦ rw (in_time, lucky) (met w (here w) (leb→le _ _ in_time) lucky refl)
          | inr no_luck ↦
              let w' = sleep step (func w).1 in
              let passed : now w + step ≤ now w' =
                omega (arith, runs.polled w, runs.slept step (func w).1) in
              rw (in_time, no_luck)
                (later begun step timeout w _ no_luck (
                  wait_loop-Ends runs fuel begun step timeout w' (omega arith)
                    (omega (arith, suc_mul fuel step))))
        ]
      ]

-- On a clock that runs forward, with a pause that is not zero: a wait ends, with as many rounds as there
-- are pauses in its time and two more; it gives true with the first value that is accepted, at a look
-- that began in time, and false only when the time is over, every value until then having been refused
-- or an exception.
pub wait_for-Ends :
    {W A : Type 0} (clock : Clock W) (func : W → Option A × W) (accept : A → Bool)
    → RunsForward clock func accept
    → (step timeout : ℕ) (w : W) → 0 < step
    → Ends clock func accept
        (clock.now w)
        step
        timeout
        w
        (wait_for clock func accept step timeout w)
unfolding wait_for
wait_for-Ends clock func accept runs step timeout w h =
    subst
      (λ fuel.
        Ends clock func accept (clock.now w) step timeout w
          (wait_loop clock func accept fuel (clock.now w) step timeout w))
      (omega arith)
      (wait_loop-Ends clock func accept runs (timeout / step + 1) (clock.now w) step timeout w
        (omega arith) (omega (arith, enough_rounds step timeout h)))
