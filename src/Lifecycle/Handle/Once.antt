-- ===== src/Lifecycle/Handle/Once.antt =====
-- How often `doneCh` is closed.
use nomad_driver_steamcmd.Base.{
  ℕ, suc, Bool, true, false, none, some, ◌≡◌, ◌⊎◌, ◌≤◌, refl, ap, inl, inr, arith,
}
use nomad_driver_steamcmd.Task.{TaskHandle, ExitResult, is_running, phase_exited}
use nomad_driver_steamcmd.Lifecycle.Tracked.{Fresh, Runs, Over}
use nomad_driver_steamcmd.Lifecycle.Start.{close_done}
use nomad_driver_steamcmd.Lifecycle.Handle.{
  WaitEnd, exit_handle, supervised, watch_recovered, wait_result,
}

-- A handle, how many goroutines wait for the end of its task, and whether its context was cancelled.
pub record Life : Type 0 where
  pub handle : TaskHandle
  pub watchers : ℕ
  pub cancelled : Bool

abbrev pub life : TaskHandle → ℕ → Bool → Life
life h n c = record { handle = h; watchers = n; cancelled = c }

-- One event of a handle. Each goroutine tells of one end and returns, and `DestroyTask` cancels the
-- context.
pub data Lives : Life → Life → Type 0 where
  ended :
      (now : ℕ) (end : WaitEnd) (h : TaskHandle) (n : ℕ) (c : Bool)
      → Lives (life h (suc n) c) (life (supervised now end h) n c)
  gone :
      (now : ℕ) (h : TaskHandle) (n : ℕ) (c : Bool)
      → Lives (life h (suc n) c) (life (watch_recovered now true h) n c)
  left :
      (now : ℕ) (h : TaskHandle) (n : ℕ)
      → Lives (life h (suc n) true) (life (watch_recovered now false h) n true)
  destroyed : (h : TaskHandle) (n : ℕ) (c : Bool) → Lives (life h n c) (life h n true)

-- The handle that RecoverTask makes for a task that was not running when its state was written: as new
-- but for its phase.
pub record Forgotten (h : TaskHandle) : Type 0 where
  pub phase : h.state.phase ≡ phase_exited
  pub fresh : Fresh h

-- The lives of the handles that a start or a recovery leaves.
pub data Reached : Life → Type 0 where
  launched : (h : TaskHandle) → Runs h → Reached (life h 1 false)
  over : (h : TaskHandle) → Over h → Reached (life h 0 false)
  forgotten : (h : TaskHandle) → Forgotten h → Reached (life h 0 false)
  event : (l l' : Life) → Reached l → Lives l l' → Reached l'

-- A handle is open, and waited for unless it was destroyed; or it is closed, and no longer waited for;
-- or it was forgotten.
data IsStaged (l : Life) : Type 0 where
  opened : Fresh l.handle → l.watchers ≤ 1 → (l.watchers ≡ 1) ⊎ (l.cancelled ≡ true) → IsStaged l
  closed : Over l.handle → l.watchers ≡ 0 → IsStaged l
  lost : Forgotten l.handle → l.watchers ≡ 0 → IsStaged l

exit_handle-Over :
    (now : ℕ) (result : ExitResult) (h : TaskHandle) → Fresh h → Over (exit_handle now result h)
unfolding exit_handle close_done
exit_handle-Over now result h fresh = record {
  phase = refl;
  exited = refl;
  closed = ap suc fresh.open_;
  result = result;
  told = refl;
}

-- A goroutine that still waits is the only one, and its handle is open.
waited-Fresh : (h : TaskHandle) (n : ℕ) (c : Bool) → IsStaged (life h (suc n) c) → Fresh h × (n ≡ 0)
waited-Fresh h n c (opened fresh most attended) = (fresh, omega (arith, most))
waited-Fresh h n c (closed is_over none_left) = absurd (omega (arith, none_left))
waited-Fresh h n c (lost is_forgotten none_left) = absurd (omega (arith, none_left))

step-IsStaged : (l l' : Life) → Lives l l' → IsStaged l → IsStaged l'
unfolding supervised watch_recovered
step-IsStaged l l' (ended now end h n c) before =
    let (fresh, last) = waited-Fresh h n c before in closed (exit_handle-Over now _ h fresh) last
step-IsStaged l l' (gone now h n c) before =
    let (fresh, last) = waited-Fresh h n c before in closed (exit_handle-Over now _ h fresh) last
step-IsStaged l l' (left now h n) before =
    let (fresh, last) = waited-Fresh h n true before in
    opened fresh (omega (arith, last)) (inr refl)
step-IsStaged l l' (destroyed h n c) (opened fresh most attended) = opened fresh most (inr refl)
step-IsStaged l l' (destroyed h n c) (closed is_over none_left) = closed is_over none_left
step-IsStaged l l' (destroyed h n c) (lost is_forgotten none_left) = lost is_forgotten none_left

Reached-IsStaged : (l : Life) → Reached l → IsStaged l
Reached-IsStaged l (launched h runs) = opened runs.fresh (omega arith) (inl refl)
Reached-IsStaged l (over h is_over) = closed is_over refl
Reached-IsStaged l (forgotten h is_forgotten) = lost is_forgotten refl
Reached-IsStaged l (event before l' reached step) =
    step-IsStaged before l step (Reached-IsStaged before reached)

-- What a client sees of a handle: it runs, has no result yet, and one goroutine waits for its end
-- unless it was destroyed; or it runs no longer, and the one result is there; or it was forgotten, and
-- is said to run although it is over.
pub data Seen (l : Life) : Type 0 where
  running :
      is_running l.handle ≡ true
      → wait_result l.handle ≡ none
      → ((l.watchers ≡ 1) ⊎ (l.cancelled ≡ true))
      → Seen l
  exited :
      (result : ExitResult)
      → is_running l.handle ≡ false
      → wait_result l.handle ≡ some (some result)
      → l.handle.closes ≡ 1
      → Seen l
  stuck :
      is_running l.handle ≡ true
      → wait_result l.handle ≡ none
      → l.handle.state.phase ≡ phase_exited
      → l.watchers ≡ 0
      → Seen l

-- Whatever happens to a task that was started or recovered, in whatever order: it is reported as
-- running, its wait has no result, and one goroutine waits for its end unless it was destroyed; or it
-- is reported as not running, its wait has a result, and `doneCh` was closed once and not twice; or it
-- was recovered from a state that says it is not running, and then it is reported as running, its wait
-- has no result, and no goroutine waits for its end.
pub Reached-Seen : (l : Life) → Reached l → Seen l
unfolding is_running wait_result
Reached-Seen l reached = elim (Reached-IsStaged l reached) [
  | opened fresh most attended ↦
      running (ground (fresh.runs, arith)) (ground (fresh.open_, arith)) attended
  | closed is_over none_left ↦
      exited is_over.result (ground (is_over.exited, arith))
        (ground (is_over.closed, is_over.told, arith)) is_over.closed
  | lost is_forgotten none_left ↦
      stuck (ground (is_forgotten.fresh.runs, arith)) (ground (is_forgotten.fresh.open_, arith))
        is_forgotten.phase none_left
]
