-- ===== src/Lifecycle/Handle.antt =====
-- driver/lifecycle.go: what becomes of a handle after its task was started or recovered, by the
-- goroutine that watches it, and `WaitTask`.
pub mod Once
use nomad_driver_steamcmd.Base.{
  ℕ, zero, suc, ◌||◌, ◌≡◌, ◌≤◌, ◌<◌, ◌+◌, refl, Bool-cases, nat_beq_iff, subst, sym, inl, inr,
  arith, ltb, nat_eq, ◌==◌, Text, ℤ, pos, negsuc, Bool, true, false, Option, none, some, Result, ok,
  err, Error, task_not_found, if◌then◌else◌,
}
use nomad_driver_steamcmd.Task.{
  TaskHandle, Tasks, ExitResult, task_exited, phase_exited, set_phase, load,
}
use nomad_driver_steamcmd.Lifecycle.Start.{close_done}

-- What `launchCmd.Wait` returns: no error, the error of an exit code, or another one.
pub data WaitEnd : Type 0 where
  ended : WaitEnd
  exit_error : ℤ → WaitEnd
  wait_error : Error → WaitEnd

unfoldable pub exit_of : WaitEnd → ExitResult
exit_of ended = record { exit_code = pos 0; signal_number = 0; failure = none }
exit_of (exit_error code) = record { exit_code = code; signal_number = 0; failure = none }
exit_of (wait_error e) = record { exit_code = negsuc 0; signal_number = 0; failure = some e }

unfoldable pub exit_handle : ℕ → ExitResult → TaskHandle → TaskHandle
unfolding set_phase close_done
exit_handle now result h = close_done (
    set_phase phase_exited
      (record h { completed_at = now; proc_state = task_exited; exit_result = some result }))

-- The goroutine of a launch, once the process has ended.
unfoldable pub supervised : ℕ → WaitEnd → TaskHandle → TaskHandle
unfolding exit_of exit_handle
supervised now end h = exit_handle now (exit_of end) h

-- `watchRecovered`, once `waitForExit` has returned whether no process is left.
unfoldable pub watch_recovered : ℕ → Bool → TaskHandle → TaskHandle
unfolding exit_handle
watch_recovered now gone h =
    if gone
    then exit_handle now (record { exit_code = negsuc 0; signal_number = 0; failure = none }) h
    else h

-- `waitForExit`, for the number of live processes at each look and whether the context ended then.
unfoldable pub wait_for_exit : (ℕ → ℕ) → (ℕ → Bool) → ℕ → ℕ → Option Bool
wait_for_exit live cancelled zero i = none
wait_for_exit live cancelled (suc fuel) i =
    let later = wait_for_exit live cancelled fuel (suc i) in
    if live i == 0 then some true else if cancelled i then some false else later

-- What the channel of `WaitTask` has for a handle: nothing until `doneCh` is closed.
unfoldable pub wait_result : TaskHandle → Option (Option ExitResult)
wait_result h = if ltb 0 h.closes then some h.exit_result else none

-- `WaitTask`
unfoldable pub wait_task : Text → Tasks → Result (Option (Option ExitResult))
unfolding load wait_result
wait_task id tasks = elim (load id tasks) [
  | none ↦ err task_not_found
  | some h ↦ ok (wait_result h)
]

-- The wait for the end of a recovered task returns by the first look at which no process is left or
-- the context has ended.
wait_for_exit-IsSome :
    (live : ℕ → ℕ) (cancelled : ℕ → Bool) (k fuel : ℕ)
    → (live k == 0 || cancelled k) ≡ true
    → (i : ℕ) → i ≤ k
    → k < i + fuel
    → (b : Bool) × (wait_for_exit live cancelled fuel i ≡ some b)
unfolding wait_for_exit
wait_for_exit-IsSome live cancelled k zero over i low high = absurd (omega arith)
wait_for_exit-IsSome live cancelled k (suc fuel) over i low high = elim (Bool-cases (live i == 0)) [
  | inl gone ↦ rw gone (true, refl)
  | inr more ↦ rw more (elim (Bool-cases (cancelled i)) [
    | inl stop ↦ rw stop (false, refl)
    | inr on ↦ rw on (
        wait_for_exit-IsSome live cancelled k fuel over (suc i)
          (elim (Bool-cases (i == k)) [
            | inl same ↦ absurd (
                ground (
                  arith,
                  subst (λ j. (live j == 0 || cancelled j) ≡ true) (sym ((nat_beq_iff i k).0 same))
                      over,
                  more,
                  on,
                ))
            | inr differ ↦ ground (arith, low, differ, nat_beq_iff i k)
          ])
          (omega (arith, high)))
  ])
]
