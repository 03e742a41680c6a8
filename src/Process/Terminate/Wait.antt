-- ===== src/Process/Terminate/Wait.antt =====
-- How long a wait for the processes of a task lasts.
use nomad_driver_steamcmd.Base.{
  ℕ, zero, suc, ltb, Bool, Bool-cases, true, false, ◌≡◌, ◌⊎◌, refl, ◌+◌, ◌*◌, ◌≤◌, ◌<◌, arith, inl,
  inr, ap,
}
use nomad_driver_steamcmd.Process.Terminate.{Procs, poll_interval, wait_from, wait_until}

-- The clock does not go back, and a sleep takes its time.
pub record Ticks {S : Type 0} (procs : Procs S) (cond : S → Bool × S) : Type 0 where
  pub looks : (s : S) → procs.now s ≤ procs.now (cond s).1
  pub sleeps : (s : S) → procs.now s + poll_interval ≤ procs.now (procs.sleep s)

module _ {S : Type 0} (procs : Procs S) (cond : S → Bool × S) where
  -- A wait has found what it waits for in the state that it ends with.
  abbrev pub Found : S → Type 0
  Found u = (t : S) × (cond t ≡ (true, u))

  abbrev pub IsOver : ℕ → Bool × S → Type 0
  IsOver deadline r = ((r.0 ≡ true) × Found r.1) ⊎ ((r.0 ≡ false) × (deadline < procs.now r.1))

  wait_from-IsOver :
      Ticks procs cond
      → (fuel deadline : ℕ) (s : S) → deadline < procs.now s + fuel * poll_interval
      → IsOver deadline (wait_from procs fuel deadline cond s)
  unfolding wait_from
  wait_from-IsOver ticks zero deadline s h = inr (refl, omega arith)
  wait_from-IsOver ticks (suc fuel) deadline s h =
      let rest =
        wait_from-IsOver ticks fuel deadline (procs.sleep (cond s).1)
          (omega (arith, ticks.looks s, ticks.sleeps (cond s).1)) in
      elim (Bool-cases (cond s).0) [
        | inl holds ↦ rw holds (inl (refl, (s, ap (λ b. (b, (cond s).1)) holds)))
        | inr fails ↦ rw fails (elim (Bool-cases (ltb deadline (procs.now (cond s).1))) [
          | inl late ↦ rw late (inr (refl, ground (arith, late)))
          | inr early ↦ rw early rest
        ])
      ]

  -- A wait is over when what it waits for is found, or when the clock has passed the timeout: it
  -- polls as often as it has to, however long a poll takes.
  pub wait_until-IsOver :
      Ticks procs cond
      → (timeout : ℕ) (s : S) → IsOver (procs.now s + timeout) (wait_until procs timeout cond s)
  unfolding wait_until
  wait_until-IsOver ticks timeout s = wait_from-IsOver ticks _ _ s (omega arith)
