-- ===== src/Lifecycle/Stop.antt =====
-- driver/lifecycle.go: `StopTask` and `ExecTask`.
pub mod Gone
use nomad_driver_steamcmd.Base.{
  ℕ, Text, text_eq, ◌==◌, ℤ, pos, none, some, List, [], if◌then◌else◌, Result, ok, err,
  task_not_found, no_exec,
}
use nomad_driver_steamcmd.Launch.{parse_signal}
use nomad_driver_steamcmd.Process.Terminate.{Procs, terminate_processes}
use nomad_driver_steamcmd.Task.{TaskHandle, Tasks, load, Machine, cleanup_wine}

-- The kill signal, SIGTERM unless another one is given and known.
unfoldable pub stop_signal : Text → ℤ
stop_signal signal =
    if signal == [] then pos 15 else elim (parse_signal signal) [ ok sig ↦ sig | err _ ↦ pos 15 ]

-- `await` waits for `doneCh`, for 5 seconds at most.
module _ {S : Type 0} (machine : Machine S) (procs : Procs S) (await : TaskHandle → S → S) where
  -- The processes of a task, for `terminate_processes`.
  unfoldable pub procs_of : TaskHandle → Procs S
  procs_of h = record procs { list = machine.task_members h }

  -- `StopTask`
  unfoldable pub stop_task : Text → ℕ → Text → Tasks → S → S × Result (Unit {0})
  unfolding load procs_of terminate_processes stop_signal cleanup_wine
  stop_task id timeout signal tasks s = elim (load id tasks) [
    | none ↦ (s, err task_not_found)
    | some h ↦ elim h.process [
      | none ↦ (s, ok tt)
      | some _ ↦
          let (_, t) = terminate_processes (procs_of h) (stop_signal signal) timeout s in
          (cleanup_wine machine h (await h t), ok tt)
    ]
  ]

-- `ExecTask`
unfoldable pub exec_task : {A : Type 0} → Text → List Text → ℕ → Result A
exec_task id args timeout = err no_exec
