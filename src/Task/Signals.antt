-- ===== src/Task/Signals.antt =====
-- Who is signalled.
use nomad_driver_steamcmd.Base.{
  ℕ, Text, All, Bool, Bool-cases, true, not, Option, none, some, List, [], ◌∷◌, Result, ok, err, ℤ,
  ◌≡◌, refl, arith, inl, inr,
}
use nomad_driver_steamcmd.Process.Members.{kept, is_support}
use nomad_driver_steamcmd.Launch.{parse_signal}
use nomad_driver_steamcmd.Task.{TaskHandle, Tasks, load, Machine, work_of, signal_work, signal_task}

kept-All : (test : ℕ → Bool) (pids : List ℕ) → All (λ pid. test pid ≡ true) (kept test pids)
unfolding kept
kept-All test [] = tt
kept-All test (p ∷ pids) = elim (Bool-cases (test p)) [
  | inl here ↦ rw here (here, kept-All test pids)
  | inr other ↦ rw other (kept-All test pids)
]

module _ {S : Type 0} (machine : Machine S) (id signal : Text) (tasks : Tasks) (s : S) where
  -- A process that is not one of the helpers.
  abbrev pub IsWork : S → ℕ → Type 0
  IsWork t pid = not (is_support (machine.proc_comm pid t)) ≡ true

  signal_work-agree :
      (signal_pids' : List ℕ → ℤ → S → S) (pid : ℕ) (sig : ℤ) (pids : List ℕ) (t : S)
      → All (IsWork t) pids
      → ((ps : List ℕ) → All (IsWork t) ps → machine.signal_pids ps sig t ≡ signal_pids' ps sig t)
      → signal_work machine pid sig pids t
        ≡ signal_work (record machine { signal_pids = signal_pids' }) pid sig pids t
  unfolding signal_work
  signal_work-agree signal_pids' pid sig [] t work agree = refl
  signal_work-agree signal_pids' pid sig (p ∷ pids) t work agree = rw (agree (p ∷ pids) work) refl

  -- The processes that are signalled by their ids are of the workload alone, never wineserver or Xvfb:
  -- signalling other lists of processes in another way makes no difference.
  pub signal_task-IsWork :
      (signal_pids' : List ℕ → ℤ → S → S)
      → ((pids : List ℕ) (sig : ℤ) (t : S)
          → All (IsWork t) pids
          → machine.signal_pids pids sig t ≡ signal_pids' pids sig t)
      → signal_task machine id signal tasks s
        ≡ signal_task (record machine { signal_pids = signal_pids' }) id signal tasks s
  unfolding signal_task work_of
  signal_task-IsWork signal_pids' agree = go (load id tasks) refl
    where
      send : TaskHandle → ℕ → ℤ → S × Result (Unit {0})
      send h pid sig =
          let (pids, t) = machine.task_members h s in
          signal_work machine pid sig (work_of machine pids t) t

      send' : TaskHandle → ℕ → ℤ → S × Result (Unit {0})
      send' h pid sig =
          let (pids, t) = machine.task_members h s in
          signal_work (record machine { signal_pids = signal_pids' }) pid sig
            (work_of machine pids t) t

      same : (h : TaskHandle) (pid : ℕ) (sig : ℤ) → send h pid sig ≡ send' h pid sig
      same h pid sig =
          let (pids, t) = machine.task_members h s in
          signal_work-agree signal_pids' pid sig (work_of machine pids t) t
            (kept-All (λ p. not (is_support (machine.proc_comm p t))) pids)
            (λ ps work. agree ps sig t work)

      parsed :
          (h : TaskHandle) (pid : ℕ) (r : Result ℤ)
          → load id tasks ≡ some h
          → h.process ≡ some pid
          → parse_signal signal ≡ r
          → signal_task machine id signal tasks s
            ≡ signal_task (record machine { signal_pids = signal_pids' }) id signal tasks s
      parsed h pid (err e) q launched p = ground arith
      parsed h pid (ok sig) q launched p = ground (arith, same h pid sig)

      running :
          (h : TaskHandle) (process : Option ℕ)
          → load id tasks ≡ some h
          → h.process ≡ process
          → signal_task machine id signal tasks s
            ≡ signal_task (record machine { signal_pids = signal_pids' }) id signal tasks s
      running h none q launched = ground arith
      running h (some pid) q launched = parsed h pid (parse_signal signal) q launched refl

      go :
          (o : Option TaskHandle)
          → load id tasks ≡ o
          → signal_task machine id signal tasks s
            ≡ signal_task (record machine { signal_pids = signal_pids' }) id signal tasks s
      go none q = ground arith
      go (some h) q = running h h.process q refl
