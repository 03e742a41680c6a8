-- ===== src/Task.antt =====
-- driver/handle.go, and of driver/lifecycle.go what inspects, signals and destroys a task.
pub mod Destroy
pub mod Signals
use nomad_driver_steamcmd.Base.{
  ℕ, nat_eq, Text, bytes, text_eq, itoa_ℕ, ◌==◌, Bool, true, false, not, ◌&&◌, ◌||◌, Option, none,
  some, List, [], ◌∷◌, if◌then◌else◌, Result, ok, err, Error, task_not_found, still_running,
  no_process, ℤ,
}
use nomad_driver_steamcmd.Process.Members.{kept, is_support}
use nomad_driver_steamcmd.Launch.{parse_signal}

-- `taskPhase`; a new handle has no phase yet.
pub data TaskPhase : Type 0 where
  no_phase phase_installing phase_running phase_exited : TaskPhase

unfoldable pub phase_name : TaskPhase → Text
phase_name no_phase = []
phase_name phase_installing = bytes "installing"
phase_name phase_running = bytes "running"
phase_name phase_exited = bytes "exited"

-- The durable state of a task, less the configuration that Nomad hands back.
pub record TaskState : Type 0 where
  pub phase : TaskPhase
  pub pid : ℕ
  pub started_at : ℕ
  pub app_id : Text
  pub install_dir : Text
  pub wine_cleanup : Option (Text × List Text)

-- `drivers.TaskState`
pub data ProcState : Type 0 where
  task_running task_exited task_unknown : ProcState

pub record ExitResult : Type 0 where
  pub exit_code : ℤ
  pub signal_number : ℕ
  pub failure : Option Error

-- `taskHandle`; `process` is the id of the process that was launched, if there is one, and `closes`
-- counts how often `doneCh` was closed.
pub record TaskHandle : Type 0 where
  pub id : Text
  pub name : Text
  pub alloc_id : Text
  pub state : TaskState
  pub process : Option ℕ
  pub exit_result : Option ExitResult
  pub proc_state : ProcState
  pub handle_started : ℕ
  pub completed_at : ℕ
  pub closes : ℕ

unfoldable pub new_task_handle : Text → Text → Text → ℕ → TaskHandle
new_task_handle id name alloc_id now = record {
  id = id;
  name = name;
  alloc_id = alloc_id;
  state = record {
    phase = no_phase;
    pid = 0;
    started_at = 0;
    app_id = [];
    install_dir = [];
    wine_cleanup = none;
  };
  process = none;
  exit_result = none;
  proc_state = task_running;
  handle_started = now;
  completed_at = 0;
  closes = 0;
}

pub record TaskStatus : Type 0 where
  pub status_id : Text
  pub status_name : Text
  pub status_state : ProcState
  pub status_started : ℕ
  pub status_completed : ℕ
  pub status_result : Option ExitResult
  pub attributes : List (Text × Text)

unfoldable pub task_status : TaskHandle → TaskStatus
unfolding phase_name
task_status h = record {
  status_id = h.id;
  status_name = h.name;
  status_state = h.proc_state;
  status_started = h.handle_started;
  status_completed = h.completed_at;
  status_result = h.exit_result;
  attributes =
      (bytes "pid", itoa_ℕ h.state.pid)
      ∷ (bytes "phase", phase_name h.state.phase)
      ∷ (bytes "app_id", h.state.app_id)
      ∷ (bytes "install_dir", h.state.install_dir)
      ∷ [];
}

unfoldable pub is_running : TaskHandle → Bool
is_running h = elim h.proc_state [
  | task_running ↦ true
  | task_exited ↦ false
  | task_unknown ↦ false
]

unfoldable pub set_phase : TaskPhase → TaskHandle → TaskHandle
set_phase p h = record h { state = record (h.state) { phase = p } }

-- `d.tasks`
abbrev pub Tasks : Type 0
Tasks = List (Text × TaskHandle)

unfoldable pub load : Text → Tasks → Option TaskHandle
load id [] = none
load id ((k, h) ∷ tasks) = let rest = load id tasks in if k == id then some h else rest

unfoldable pub delete : Text → Tasks → Tasks
delete id [] = []
delete id ((k, h) ∷ tasks) = let rest = delete id tasks in if k == id then rest else (k, h) ∷ rest

-- `d.tasks.Store`
unfoldable pub put : Text → TaskHandle → Tasks → Tasks
unfolding delete
put id h tasks = (id, h) ∷ delete id tasks

-- `InspectTask`
unfoldable pub inspect_task : Text → Tasks → Result TaskStatus
unfolding load task_status
inspect_task id tasks = elim (load id tasks) [
  | none ↦ err task_not_found
  | some h ↦ ok (task_status h)
]

-- What these operations do to the processes of the machine.
pub record Machine (S : Type 0) : Type 0 where
  pub task_members : TaskHandle → S → List ℕ × S
  pub proc_comm : ℕ → S → Text
  pub signal_pids : List ℕ → ℤ → S → S
  pub signal_group : ℕ → ℤ → S → S × Result (Unit {0})
  pub run_cleanup : Text × List Text → S → S
  pub cancel : Text → S → S

module _ {S : Type 0} (machine : Machine S) where
  open machine use {task_members, proc_comm, signal_pids, signal_group, run_cleanup, cancel}

  -- What `cleanupWine` runs; a failure is only logged.
  unfoldable pub cleanup_wine : TaskHandle → S → S
  cleanup_wine h s = elim h.state.wine_cleanup [
    | none ↦ s
    | some c ↦ if c.0 == [] then s else run_cleanup c s
  ]

  unfoldable pub kill_task : TaskHandle → S → S
  unfolding cleanup_wine
  kill_task h s =
      let (pids, s') = task_members h s in cleanup_wine h (signal_pids pids (ℤ.pos 9) s')

  -- `DestroyTask`
  unfoldable pub destroy_task : Text → Bool → Tasks → S → (S × Tasks) × Result (Unit {0})
  unfolding kill_task is_running load delete
  destroy_task id force tasks s = elim (load id tasks) [
    | none ↦ ((s, tasks), err task_not_found)
    | some h ↦
        if is_running h && not force
        then ((s, tasks), err (still_running id))
        else let s' = (if is_running h then kill_task h s else s) in
          ((cancel id s', delete id tasks), ok tt)
  ]

  -- The processes of a task that are not Wine's or the display's helpers.
  unfoldable pub work_of : List ℕ → S → List ℕ
  unfolding kept is_support
  work_of pids s = kept (λ pid. not (is_support (proc_comm pid s))) pids

  unfoldable pub signal_work : ℕ → ℤ → List ℕ → S → S × Result (Unit {0})
  signal_work pid sig [] s = signal_group pid sig s
  signal_work pid sig (p ∷ pids) s = (signal_pids (p ∷ pids) sig s, ok tt)

  -- `SignalTask`
  unfoldable pub signal_task : Text → Text → Tasks → S → S × Result (Unit {0})
  unfolding load work_of signal_work
  signal_task id signal tasks s = elim (load id tasks) [
    | none ↦ (s, err task_not_found)
    | some h ↦ elim h.process [
      | none ↦ (s, err (no_process id))
      | some pid ↦ elim (parse_signal signal) [
        | err e ↦ (s, err e)
        | ok sig ↦ let (pids, s') = task_members h s in signal_work pid sig (work_of pids s') s'
      ]
    ]
  ]
