-- ===== src/Lifecycle/System/Contained.antt =====
-- That the operations on a task signal no process but its own.
use nomad_driver_steamcmd.Base.{
  ℕ, nat_eq, nat_beq_iff, ◌==◌, Text, text_eq, ℤ, pos, Bool, Bool-cases, Option, none, some, List,
  [], ◌∷◌, Result, ok, if◌then◌else◌, ◌≡◌, refl, arith, inl, inr,
}
use nomad_driver_steamcmd.Process.Found.{is_in}
use nomad_driver_steamcmd.Process.Members.{members_in}
use nomad_driver_steamcmd.Process.Terminate.{terminate_processes}
use nomad_driver_steamcmd.Process.Terminate.Keeps.{AllMine, Keeps, terminate_processes-Keeps}
use nomad_driver_steamcmd.Task.{
  TaskHandle, Tasks, load, cleanup_wine, kill_task, destroy_task, is_running,
}
use nomad_driver_steamcmd.Lifecycle.Stop.{stop_task, stop_signal, procs_of}
use nomad_driver_steamcmd.Lifecycle.System.Owned.{Contained, SafeSeen, list_members-SafeSeen}
use nomad_driver_steamcmd.Lifecycle.System.{
  System, Seen, signal_pids, run_cleanup, machine_on, procs_on, stop_on, destroy_on,
}

module _ {S : Type 0} (system : System S) (fuel cores compute : ℕ) (mine : ℕ → Bool)
    (Safe : S → Type 0) (await : TaskHandle → S → S) (h : TaskHandle)
    (contained : Contained system fuel cores compute mine Safe await h) where
  -- The state is safe, and the members that are known are the task's own.
  abbrev IsSafe : Seen S → Type 0
  IsSafe = SafeSeen system fuel cores compute mine Safe

  signal_pids-Safe :
      (pids : List ℕ) (sig : ℤ) (s : S)
      → Safe s
      → AllMine mine pids
      → Safe (signal_pids system fuel cores compute pids sig s)
  unfolding signal_pids is_in
  signal_pids-Safe [] sig s safe all = safe
  signal_pids-Safe (pid ∷ pids) sig s safe all =
      signal_pids-Safe pids sig _
        (contained.kills pid sig s safe (all pid (ground (arith, (nat_beq_iff pid pid).1 refl))))
        (λ p found. all p (ground (arith, found)))

  task_procs-Keeps :
      (list : Seen S → List ℕ × Seen S) (waits : TaskHandle → Seen S → Seen S)
      → Keeps
          (procs_of
            (machine_on system fuel cores compute)
            (procs_on system fuel cores compute list)
            waits
            h)
          mine
          IsSafe
  unfolding procs_of machine_on procs_on
  task_procs-Keeps list waits = record {
    lists = λ t safe.
        (list_members-SafeSeen system fuel cores compute mine Safe await h contained t safe).0;
    only_mine = λ t safe.
        (list_members-SafeSeen system fuel cores compute mine Safe await h contained t safe).1;
    signals = λ pids sig t safe all. (signal_pids-Safe pids sig t.0 safe.0 all, safe.1);
    sleeps = λ t safe. (contained.sleeps t.0 safe.0, safe.1);
  }

  cleanup_wine-SafeSeen :
      (t : Seen S) → IsSafe t → IsSafe (cleanup_wine (machine_on system fuel cores compute) h t)
  unfolding cleanup_wine machine_on run_cleanup
  cleanup_wine-SafeSeen t safe = go h.state.wine_cleanup
    where
      go :
          (o : Option (Text × List Text))
          → IsSafe (elim o as (λ _. Seen S) [
            | none ↦ t
            | some c ↦ if c.0 == [] then t else (run_cleanup system fuel cores compute c t.0, t.1)
          ])
      go none = safe
      go (some c) = elim (Bool-cases (c.0 == [])) [
        | inl empty ↦ rw empty safe
        | inr named ↦ rw named (contained.runs _ _ _ t.0 safe.0, safe.1)
      ]

  kill_task-SafeSeen :
      (t : Seen S) → IsSafe t → IsSafe (kill_task (machine_on system fuel cores compute) h t)
  unfolding kill_task machine_on
  kill_task-SafeSeen t safe =
      let (safe', all) =
        list_members-SafeSeen system fuel cores compute mine Safe await h contained t safe in
      cleanup_wine-SafeSeen _ (signal_pids-Safe _ (pos 9) _ safe'.0 all, safe'.1)

  none-AllMine : AllMine mine (members_in [])
  unfolding members_in is_in
  none-AllMine pid found = cc

  stop_on-Safe :
      (id signal : Text) (timeout : ℕ) (tasks : Tasks) (s : S)
      → load id tasks ≡ some h
      → Safe s
      → Safe (stop_on system fuel cores compute await id timeout signal tasks s).0
  unfolding stop_on stop_task
  stop_on-Safe id signal timeout tasks s found safe = rw (found, stop_on, stop_task) (go h.process)
    where
      unlisted : Seen S → List ℕ × Seen S
      unlisted t = ([], t)

      waits : TaskHandle → Seen S → Seen S
      waits g t = (await g t.0, t.1)

      ended : Seen S
      ended =
          (terminate_processes
            (procs_of (machine_on system fuel cores compute)
              (procs_on system fuel cores compute unlisted) waits h)
            (stop_signal signal) timeout (s, [])).1

      go :
          (o : Option ℕ)
          → Safe
              (elim o as (λ _. Seen S × Result (Unit {0})) [
                | none ↦ ((s, []), ok tt)
                | some _ ↦
                    (cleanup_wine (machine_on system fuel cores compute) h (waits h ended), ok tt)
              ]).0.0
      go none = safe
      go (some _) =
          let safe' =
            terminate_processes-Keeps _ mine IsSafe (task_procs-Keeps unlisted waits)
              (stop_signal signal) timeout (s, []) (safe, none-AllMine) in
          (cleanup_wine-SafeSeen (waits h ended) (contained.awaits ended.0 safe'.0, safe'.1)).0

  destroy_on-Safe :
      (id : Text) (force : Bool) (tasks : Tasks) (s : S)
      → load id tasks ≡ some h
      → Safe s
      → Safe (destroy_on system fuel cores compute id force tasks s).0.0
  unfolding destroy_on destroy_task machine_on
  destroy_on-Safe id force tasks s found safe =
      rw (found, destroy_on, destroy_task)
        (elim (Bool-cases (is_running h)) [
          | inl runs ↦ rw runs (elim (Bool-cases force) [
            | inl forced ↦
                rw forced
                  (contained.cancels id _ (kill_task-SafeSeen (s, []) (safe, none-AllMine)).0)
            | inr gentle ↦ rw gentle safe
          ])
          | inr over ↦ rw over (contained.cancels id s safe)
        ])

  -- StopTask and DestroyTask keep whatever is kept by signals to the task's own processes, sleeping,
  -- the run of wineserver, waiting and cancelling: no process is ever signalled but those that carried
  -- the task's marker, or descended from its launched process, at some look of the operation, and no
  -- process group. A process is told by its id, and counts as the task's own if it was so at one look.
  pub stop_on-Contained :
      (id signal : Text) (timeout : ℕ) (force : Bool) (tasks : Tasks) (s : S)
      → load id tasks ≡ some h
      → Safe s
      → Safe (stop_on system fuel cores compute await id timeout signal tasks s).0
        × Safe (destroy_on system fuel cores compute id force tasks s).0.0
  stop_on-Contained id signal timeout force tasks s found safe = (
    stop_on-Safe id signal timeout tasks s found safe,
    destroy_on-Safe id force tasks s found safe,
  )
