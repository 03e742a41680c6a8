-- ===== src/Process/Terminate.antt =====
-- driver/reap.go: how the processes of a task are made to end, the workload before the helpers that it
-- needs.
pub mod Wait
pub mod Passes
pub mod Ends
pub mod Order
pub mod Keeps
use nomad_driver_steamcmd.Base.{
  ℕ, zero, suc, ltb, nat_eq, Text, bytes, text_eq, ◌==◌, ◌*◌, ℤ, pos, Bool, true, false, not, ◌&&◌,
  ◌||◌, List, [], ◌∷◌, if◌then◌else◌, ◌+◌, ◌/◌,
}
use nomad_driver_steamcmd.Process.Members.{is_support}

-- What `terminateProcesses` is given, over a state `S` of the machine: the processes to end, whether
-- one is alive and what it is called, `signalPIDs`, the clock in nanoseconds, and a sleep of 100
-- milliseconds.
pub record Procs (S : Type 0) : Type 0 where
  pub list : S → List ℕ × S
  pub alive : ℕ → S → Bool
  pub comm : ℕ → S → Text
  pub signal : List ℕ → ℤ → S → S
  pub now : S → ℕ
  pub sleep : S → S

abbrev pub poll_interval : ℕ
poll_interval = 100000000

abbrev pub seconds : ℕ → ℕ
seconds n = n * 1000000000

abbrev pub is_empty : List ℕ → Bool
is_empty [] = true
is_empty (_ ∷ _) = false

module _ {S : Type 0} (procs : Procs S) where
  open procs use {list, alive, comm, signal, now, sleep}

  -- The processes of a list that are alive, and are helpers or are none.
  unfoldable pub living : Bool → List ℕ → S → List ℕ
  unfolding is_support
  living support [] s = []
  living support (pid ∷ pids) s =
      let rest = living support pids s in
      if alive pid s && (if support then is_support (comm pid s) else not (is_support (comm pid s)))
      then pid ∷ rest
      else rest

  -- `split`, of which one half is looked at.
  unfoldable pub split_off : Bool → S → List ℕ × S
  unfolding living
  split_off support s = let (pids, t) = list s in (living support pids t, t)

  -- `noWork` and `noSupport`
  unfoldable pub none_left : Bool → S → Bool × S
  unfolding split_off
  none_left support s = let (pids, t) = split_off support s in (is_empty pids, t)

  unfoldable pub wait_from : ℕ → ℕ → (S → Bool × S) → S → Bool × S
  wait_from zero deadline cond s = (false, s)
  wait_from (suc fuel) deadline cond s =
      let (holds, t) = cond s in
      let later = wait_from fuel deadline cond (sleep t) in
      if holds then (true, t) else if ltb deadline (now t) then (false, t) else later

  -- `waitUntil`
  unfoldable pub wait_until : ℕ → (S → Bool × S) → S → Bool × S
  unfolding wait_from
  wait_until timeout cond s = wait_from (timeout / poll_interval + 2) (now s + timeout) cond s

  -- What has not ended in time is sent a last signal, unless nothing is left after all, and 5 seconds.
  unfoldable pub kill_left : Bool → Bool → S → S
  unfolding split_off none_left wait_until
  kill_left support always s =
      let (pids, t) = split_off support s in
      if is_empty pids && not always
      then t
      else (wait_until (seconds 5) (none_left support) (signal pids (ℤ.pos 9) t)).1

  -- One part of a task is sent `sig` and given `grace` to end.
  unfoldable pub stop_part : Bool → Bool → ℤ → ℕ → S → S
  unfolding split_off none_left wait_until kill_left
  stop_part support always sig grace s =
      let (pids, t) = split_off support s in
      let (ended, u) = wait_until grace (none_left support) (signal pids sig t) in
      if is_empty pids then t else if ended then u else kill_left support always u

  -- The workload.
  unfoldable pub stop_work : ℤ → ℕ → S → S
  unfolding stop_part
  stop_work sig grace s = stop_part false false sig grace s

  -- The helpers are sent SIGTERM and given 5 seconds.
  unfoldable pub stop_support : S → S
  unfolding stop_part
  stop_support s = stop_part true true (ℤ.pos 15) (seconds 5) s

  -- `terminateProcesses`
  unfoldable pub terminate_processes : ℤ → ℕ → S → Bool × S
  unfolding stop_work stop_support
  terminate_processes sig grace s =
      let t = stop_support (stop_work sig grace s) in
      let (pids, u) = list t in (is_empty (living false pids u) && is_empty (living true pids u), u)
