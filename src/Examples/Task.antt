-- ===== src/Examples/Task.antt =====
-- Two tasks of which one runs.
use nomad_driver_steamcmd.Base.{
  ℕ, nat_eq, bytes, text_eq, text_beq, ◌==◌, All, true, false, not, some, List, [], ◌∷◌, ◌++◌, ok,
  err, still_running, ◌≡◌, refl, if◌then◌else◌, arith,
}
use nomad_driver_steamcmd.Launch.{parse_signal}
use nomad_driver_steamcmd.Process.Members.{is_support}
use nomad_driver_steamcmd.Task.{
  Tasks, task_exited, new_task_handle, Machine, destroy_task, signal_task,
}
use nomad_driver_steamcmd.Task.Destroy.{Destroyed, destroy_task-Destroyed}
use nomad_driver_steamcmd.Task.Signals.{signal_task-IsWork}

-- The state is the list of the processes that were signalled.
abbrev machine : Machine (List ℕ)
machine = record {
  task_members = λ h s. (41 ∷ 42 ∷ [], s);
  proc_comm = λ pid s. if pid == 41 then bytes "wineserver" else bytes "game.exe";
  signal_pids = λ pids sig s. pids ++ s;
  signal_group = λ pid sig s. (pid ∷ s, ok tt);
  run_cleanup = λ c s. s;
  cancel = λ id s. s;
}

abbrev tasks : Tasks
tasks =
    (
      bytes "a",
      record (new_task_handle (bytes "a") (bytes "game") (bytes "x") 0) { process = some 40 },
    )
    ∷ (
      bytes "b",
      record (new_task_handle (bytes "b") (bytes "tool") (bytes "y") 0) {
        proc_state = task_exited;
      },
    )
    ∷ []

signalled : signal_task machine (bytes "a") (bytes "SIGINT") tasks [] ≡ (42 ∷ [], ok tt)
unfolding signal_task text_beq new_task_handle parse_signal
signalled = refl

kept_running :
    destroy_task machine (bytes "a") false tasks [] ≡ (([], tasks), err (still_running (bytes "a")))
unfolding destroy_task text_beq new_task_handle
kept_running = refl

destroy_task-Destroyed_example :
    Destroyed machine
      (bytes "a")
      true
      tasks
      []
      (bytes "b")
      (destroy_task machine (bytes "a") true tasks [])
destroy_task-Destroyed_example =
    destroy_task-Destroyed machine (bytes "a") true tasks [] (bytes "b")

-- Signals that drop the helpers from the list that is given.
abbrev spared : List ℕ → List ℕ
spared [] = []
spared (pid ∷ pids) =
    let rest = spared pids in if is_support (machine.proc_comm pid []) then rest else pid ∷ rest

spared-work :
    (pids : List ℕ) (t : List ℕ)
    → All (λ pid. not (is_support (machine.proc_comm pid t)) ≡ true) pids
    → spared pids ≡ pids
spared-work [] t h = refl
spared-work (pid ∷ pids) t h = ground (arith, h.0, spared-work pids t h.1)

signal_task-IsWork_example :
    signal_task machine (bytes "a") (bytes "SIGINT") tasks []
    ≡ signal_task
        (record machine { signal_pids = λ pids sig s. spared pids ++ s })
        (bytes "a")
        (bytes "SIGINT")
        tasks
        []
signal_task-IsWork_example =
    signal_task-IsWork machine (bytes "a") (bytes "SIGINT") tasks []
      (λ pids sig s. spared pids ++ s) (λ pids sig t work. rw (spared-work pids t work) refl)
