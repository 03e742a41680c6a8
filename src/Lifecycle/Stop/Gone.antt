-- ===== src/Lifecycle/Stop/Gone.antt =====
-- What StopTask leaves behind.
use nomad_driver_steamcmd.Base.{
  ℕ, Text, text_eq, ◌==◌, Bool, Bool-cases, true, false, Option, none, some, List, [], Result, ok,
  if◌then◌else◌, ◌≡◌, refl, sym, subst, inl, inr, arith,
}
use nomad_driver_steamcmd.Process.Found.{is_in}
use nomad_driver_steamcmd.Process.Terminate.{Procs, terminate_processes}
use nomad_driver_steamcmd.Process.Terminate.Ends.{
  Ending, Gone, left, terminate_processes-left, is_in-is_empty, is_empty-is_in,
}
use nomad_driver_steamcmd.Task.{TaskHandle, Tasks, load, Machine, cleanup_wine}
use nomad_driver_steamcmd.Lifecycle.Stop.{stop_signal, procs_of, stop_task}

module _ {S : Type 0} (machine : Machine S) (procs : Procs S) (await : TaskHandle → S → S)
    (h : TaskHandle) where
  -- The processes of the task.
  abbrev pub own : Procs S
  own = procs_of machine procs await h

  -- What is relied on beside `Ending`: the task has no new processes while `doneCh` is waited for and
  -- while wineserver is told to end.
  pub record Quiet : Type 0 where
    pub awaits :
        (support : Bool) (pid : ℕ) (s : S)
        → is_in pid (left own support (await h s)) ≡ true
        → is_in pid (left own support s) ≡ true
    pub cleans :
        (support : Bool) (pid : ℕ) (c : Text × List Text) (s : S)
        → is_in pid (left own support (machine.run_cleanup c s)) ≡ true
        → is_in pid (left own support s) ≡ true

  module _ (ending : Ending own) (quiet : Quiet) where
    kept-Gone :
        (support : Bool) (s t : S)
        → ((pid : ℕ)
            → is_in pid (left own support t) ≡ true
            → is_in pid (left own support s) ≡ true)
        → Gone own support s
        → Gone own support t
    kept-Gone support s t fewer gone =
        is_empty-is_in own (left own support t)
          (λ pid. ground (arith, fewer pid, is_in-is_empty own (left own support s) gone pid))

    cleanup_wine-Gone :
        (support : Bool) (s : S) → Gone own support s → Gone own support (cleanup_wine machine h s)
    unfolding cleanup_wine
    cleanup_wine-Gone support s gone = go h.state.wine_cleanup
      where
        go :
            (o : Option (Text × List Text))
            → Gone own support (elim o as (λ _. S) [
              | none ↦ s
              | some c ↦ if c.0 == [] then s else machine.run_cleanup c s
            ])
        go none = gone
        go (some c) = elim (Bool-cases (c.0 == [])) [
          | inl empty ↦ rw empty gone
          | inr named ↦ rw named (
              kept-Gone support s (machine.run_cleanup c s) (λ pid. quiet.cleans support pid c s)
                gone)
        ]

    -- StopTask on a task that has a process succeeds, and no process of the task is left, of the
    -- workload or the helpers, whatever the kill signal and the timeout, if nothing new appears in the
    -- task and SIGKILL works within 5 seconds.
    pub stop_task-Gone :
        (id signal : Text) (timeout pid : ℕ) (tasks : Tasks) (s : S)
        → load id tasks ≡ some h
        → h.process ≡ some pid
        → let r = stop_task machine procs await id timeout signal tasks s in
          (r.1 ≡ ok tt) × Gone own false r.0 × Gone own true r.0
    unfolding stop_task
    stop_task-Gone id signal timeout pid tasks s found runs =
        subst
          (λ (r : S × Result (Unit {0})). (r.1 ≡ ok tt) × Gone own false r.0 × Gone own true r.0)
          (sym (rw (found, stop_task) (go h.process runs))) (refl, ends false, ends true)
      where
        ended : S
        ended = (terminate_processes own (stop_signal signal) timeout s).1

        last : S
        last = cleanup_wine machine h (await h ended)

        go :
            (o : Option ℕ)
            → o ≡ some pid
            → (elim o as (λ _. S × Result (Unit {0})) [
              | none ↦ (s, ok tt)
              | some _ ↦ (last, ok tt)
            ])
              ≡ (last, ok tt)
        go none e = cc
        go (some _) e = refl

        ends : (support : Bool) → Gone own support last
        ends support = cleanup_wine-Gone support (await h ended) (
            kept-Gone support ended (await h ended) (λ p. quiet.awaits support p ended)
              (terminate_processes-left own ending support (stop_signal signal) timeout s))
