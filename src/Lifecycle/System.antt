-- ===== src/Lifecycle/System.antt =====
-- driver/lifecycle.go, driver/reap.go and driver/proton.go: what the operations on a task do by calls
-- of the operating system.
pub mod Owned
pub mod Contained
use nomad_driver_steamcmd.Base.{
  ℕ, zero, suc, Text, bytes, trim_space, ℤ, pos, negsuc, Bool, Option, none, some, List, [], ◌∷◌,
  ◌++◌, Result, ok, err, Error, process_done,
}
use nomad_driver_steamcmd.Process.{task_key, proc_alive}
use nomad_driver_steamcmd.Process.Members.{ProcDir, Known, live_members}
use nomad_driver_steamcmd.Process.Terminate.{Procs}
use nomad_driver_steamcmd.Process.Tree.{tree_of}
use nomad_driver_steamcmd.Stats.Round.{UsageCollector, new_usage_collector, distinct}
use nomad_driver_steamcmd.Task.{TaskHandle, Tasks, Machine, destroy_task, signal_task}
use nomad_driver_steamcmd.Lifecycle.Stop.{stop_task}

-- What `syscall.Kill` answers; `no_such` is `syscall.ESRCH`.
pub data Killed : Type 0 where
  delivered : Killed
  no_such : Killed
  refused : Error → Killed

-- The calls, over a state `S` of the machine: the files of /proc as they are now, gopsutil's view of
-- the processes, `syscall.Kill`, where a negative id is that of a group, the clock, a sleep of 100
-- milliseconds, a command that is run to its end or for 10 seconds, the driver's environment, and the
-- cancelling of a task's context.
pub record System (S : Type 0) : Type 0 where
  pub proc_dir : S → ProcDir
  pub comm_file : ℕ → S → Result Text
  pub is_there : S → ℕ → Bool
  pub children : S → ℕ → Option (List ℕ)
  pub kill : ℤ → ℤ → S → S × Killed
  pub now : S → ℕ
  pub sleep : S → S
  pub run : Text → List Text → List Text → S → S
  pub environ : List Text
  pub cancel : Text → S → S

-- The state, with what the operation's collector knows of the processes.
abbrev pub Seen : Type 0 → Type 0
Seen S = S × Known

module _ {S : Type 0} (system : System S) (fuel cores compute : ℕ) where
  -- `procComm`
  unfoldable pub proc_comm : ℕ → S → Text
  unfolding trim_space
  proc_comm pid s = elim (system.comm_file pid s) [ ok b ↦ trim_space b | err _ ↦ [] ]

  -- `signalPIDs`
  unfoldable pub signal_pids : List ℕ → ℤ → S → S
  signal_pids [] sig s = s
  signal_pids (pid ∷ pids) sig s = signal_pids pids sig (system.kill (pos pid) sig s).0

  -- The id of a group.
  unfoldable pub group_of : ℕ → ℤ
  group_of zero = pos zero
  group_of (suc n) = negsuc n

  -- `signalProcessGroup`
  unfoldable pub signal_process_group : ℕ → ℤ → S → S × Result (Unit {0})
  unfolding group_of
  signal_process_group pid sig s =
      let (t, answer) = system.kill (group_of pid) sig s in
      (t, elim answer [ delivered ↦ ok tt | no_such ↦ err process_done | refused e ↦ err e ])

  -- `run` of `wineCleanup`, of a command that there is.
  unfoldable pub run_cleanup : Text × List Text → S → S
  run_cleanup (bin, env) s = system.run bin (bytes "-k" ∷ []) (system.environ ++ env) s

  -- `collectorFor`
  unfoldable pub collector_for : TaskHandle → UsageCollector (Unit {0})
  unfolding new_usage_collector task_key
  collector_for h =
      new_usage_collector (task_key h.alloc_id h.name)
        (elim h.process [ none ↦ 0 | some pid ↦ pid ]) cores compute

  -- `liveMembers` of that collector, at a state.
  unfoldable pub members_at : TaskHandle → S → Known → List ℕ × Known
  unfolding collector_for live_members tree_of
  members_at h s known =
      let c = collector_for h in
      live_members (system.proc_dir s) (tree_of (system.is_there s) (system.children s) fuel)
        c.marker c.root_pid (system.now s) known

  unfoldable pub list_members : TaskHandle → Seen S → List ℕ × Seen S
  unfolding members_at distinct
  list_members h (s, known) =
      let (pids, known') = members_at h s known in (distinct pids, (s, known'))

  unfoldable pub machine_on : Machine (Seen S)
  unfolding list_members proc_comm signal_pids signal_process_group run_cleanup
  machine_on = record {
    task_members = list_members;
    proc_comm = λ pid t. proc_comm pid t.0;
    signal_pids = λ pids sig t. (signal_pids pids sig t.0, t.1);
    signal_group = λ pid sig t. let (s, r) = signal_process_group pid sig t.0 in ((s, t.1), r);
    run_cleanup = λ c t. (run_cleanup c t.0, t.1);
    cancel = λ id t. (system.cancel id t.0, t.1);
  }

  -- `list` is that of the task which is stopped, for `stop_task`.
  unfoldable pub procs_on : (Seen S → List ℕ × Seen S) → Procs (Seen S)
  unfolding proc_comm signal_pids proc_alive
  procs_on list = record {
    list = list;
    alive = λ pid t. proc_alive ((system.proc_dir t.0).stat pid);
    comm = λ pid t. proc_comm pid t.0;
    signal = λ pids sig t. (signal_pids pids sig t.0, t.1);
    now = λ t. system.now t.0;
    sleep = λ t. (system.sleep t.0, t.1);
  }

  -- Each operation makes a collector of its own, which knows nothing yet. `await` waits for `doneCh`.
  unfoldable pub stop_on :
      (TaskHandle → S → S) → Text → ℕ → Text → Tasks → S → S × Result (Unit {0})
  unfolding stop_task machine_on procs_on
  stop_on await id timeout signal tasks s =
      let waits : TaskHandle → Seen S → Seen S = λ h t. (await h t.0, t.1) in
      let unlisted : Seen S → List ℕ × Seen S = λ t. ([], t) in
      let (t, r) = stop_task machine_on (procs_on unlisted) waits id timeout signal tasks (s, []) in
      (t.0, r)

  unfoldable pub destroy_on : Text → Bool → Tasks → S → (S × Tasks) × Result (Unit {0})
  unfolding destroy_task machine_on
  destroy_on id force tasks s =
      let ((t, tasks'), r) = destroy_task machine_on id force tasks (s, []) in ((t.0, tasks'), r)

  unfoldable pub signal_on : Text → Text → Tasks → S → S × Result (Unit {0})
  unfolding signal_task machine_on
  signal_on id sig tasks s = let (t, r) = signal_task machine_on id sig tasks (s, []) in (t.0, r)
