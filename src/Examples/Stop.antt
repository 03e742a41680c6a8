-- ===== src/Examples/Stop.antt =====
-- Stopping a task with one process, which ends only when it is killed.
use nomad_driver_steamcmd.Base.{bytes, text_beq, true, false, some, [], ◌∷◌, ok, ◌≡◌, refl}
use nomad_driver_steamcmd.Task.{TaskHandle, Tasks, Machine, new_task_handle, load}
use nomad_driver_steamcmd.Process.Terminate.Ends.{Gone}
use nomad_driver_steamcmd.Lifecycle.Stop.{procs_of, stop_task}
use nomad_driver_steamcmd.Lifecycle.Stop.Gone.{Quiet, stop_task-Gone}
use nomad_driver_steamcmd.Examples.Terminate.{Box, procs, ending, box}

abbrev machine : Machine Box
machine = record {
  task_members = λ h s. (7 ∷ [], s);
  proc_comm = procs.comm;
  signal_pids = procs.signal;
  signal_group = λ pid sig s. (procs.signal (pid ∷ []) sig s, ok tt);
  run_cleanup = λ c s. s;
  cancel = λ id s. s;
}

abbrev await : TaskHandle → Box → Box
await h s = s

abbrev handle : TaskHandle
handle = record (new_task_handle (bytes "t") (bytes "game") (bytes "a") 0) { process = some 7 }

abbrev tasks : Tasks
tasks = (bytes "t", handle) ∷ []

quiet : Quiet machine procs await handle
quiet = record { awaits = λ support pid s found. found; cleans = λ support pid c s found. found }

stop_task-Gone_example :
    let r = stop_task machine procs await (bytes "t") 0 (bytes "SIGINT") tasks box in
    (r.1 ≡ ok tt)
    × Gone (procs_of machine procs await handle) false r.0
    × Gone (procs_of machine procs await handle) true r.0
unfolding load text_beq procs_of
stop_task-Gone_example =
    stop_task-Gone machine procs await handle ending quiet (bytes "t") (bytes "SIGINT") 0 7 tasks
      box refl refl
