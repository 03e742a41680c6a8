-- ===== src/Lifecycle/Recover.antt =====
-- driver/lifecycle.go: `RecoverTask`.
pub mod Found
pub mod Restart
use nomad_driver_steamcmd.Base.{
  ℕ, nat_eq, Text, ◌==◌, ℤ, pos, negsuc, Bool, true, false, Option, none, some, List, [], ◌∷◌,
  if◌then◌else◌, Result, ok, err, Error, suc, no_handle, decoding_state, no_pid, process_not_found,
}
use nomad_driver_steamcmd.Base.Effects.{Effect, pure, fail, lift, wrap, ◌>>=◌, ◌>>◌}
use nomad_driver_steamcmd.Process.Members.{live_members}
use nomad_driver_steamcmd.Process.Terminate.{is_empty}
use nomad_driver_steamcmd.LogFollow.{resolve_follow_paths, snapshot_files}
use nomad_driver_steamcmd.Task.{
  TaskHandle, TaskState, TaskPhase, no_phase, phase_installing, phase_running, phase_exited,
  task_exited, set_phase, new_task_handle, load,
}
use nomad_driver_steamcmd.Lifecycle.Host.{NomadTask, Host}
use nomad_driver_steamcmd.Lifecycle.Store.{World, on_host, act, keep_handle}
use nomad_driver_steamcmd.Lifecycle.Adopt.{marker_of, start_log_followers}
use nomad_driver_steamcmd.Lifecycle.Start.{close_done}

-- The handle that Nomad kept, and what `GetDriverState` returns.
pub record KeptHandle : Type 0 where
  pub task : NomadTask
  pub driver_state : Result TaskState

-- Whether the task is watched from then on by `watchRecovered`.
pub data Watch : Type 0 where
  unwatched watched : Watch

-- A task whose processes are gone.
unfoldable pub lost_handle : ℕ → TaskHandle → TaskHandle
unfolding set_phase close_done
lost_handle now h = close_done (record (set_phase phase_exited h) {
  proc_state = task_exited;
  completed_at = now;
  exit_result =
      some (record { exit_code = negsuc 0; signal_number = 0; failure = some process_not_found });
})

unfoldable pub readopted_handle : TaskHandle → TaskHandle
readopted_handle h = record h { process = some h.state.pid; handle_started = h.state.started_at }

module _ {S : Type 0} (host : Host S) where
  -- The live processes of a task, by a new collector.
  unfoldable pub live_of : NomadTask → ℕ → S → List ℕ
  unfolding live_members marker_of
  live_of task root s =
      (live_members (host.proc_dir s) (host.tree s) (marker_of task) root (host.procs.now s) []).0

  unfoldable pub follow_again : NomadTask → TaskState → S → S
  unfolding start_log_followers
  follow_again task state s = elim task.driver_config [
    | err _ ↦ s
    | ok cfg ↦
        let paths = resolve_follow_paths state.install_dir cfg.follow_logs in
        start_log_followers host task paths (snapshot_files (host.file_info s) paths) s
  ]

  -- A task of which these processes are alive.
  unfoldable pub recover_found :
      List ℕ → ℕ → NomadTask → TaskState → TaskHandle → Effect (World S) Watch
  unfolding lost_handle readopted_handle follow_again
  recover_found [] now task state h = do
    keep_handle task.task_id (lost_handle now h)
    pure unwatched
  recover_found (_ ∷ _) now task state h = do
    keep_handle task.task_id (readopted_handle h)
    act (follow_again task state)
    pure watched

  unfoldable pub recover_running : NomadTask → TaskState → TaskHandle → Effect (World S) Watch
  unfolding live_of recover_found
  recover_running task state h w =
      let live = live_of task state.pid w.0 in
      let found = recover_found live (host.procs.now w.0) task state h w in
      if state.pid == 0 then (w, err (no_pid task.task_id)) else found

  unfoldable pub recover_phase :
      TaskPhase → NomadTask → TaskState → TaskHandle → Effect (World S) Watch
  unfolding recover_running set_phase
  recover_phase phase_running task state h = recover_running task state h
  recover_phase no_phase task state h =
      keep_handle task.task_id (set_phase phase_exited h) >> pure unwatched
  recover_phase phase_installing task state h =
      keep_handle task.task_id (set_phase phase_exited h) >> pure unwatched
  recover_phase phase_exited task state h =
      keep_handle task.task_id (set_phase phase_exited h) >> pure unwatched

  unfoldable pub recover_state : KeptHandle → Effect (World S) Watch
  unfolding new_task_handle recover_phase
  recover_state kept = do
    state ← wrap decoding_state (lift kept.driver_state)
    now ← on_host (λ s. (s, ok (host.procs.now s)))
    let h = new_task_handle kept.task.task_id kept.task.task_name kept.task.alloc_id now
    recover_phase state.phase kept.task state (record h { state = state })

  -- `RecoverTask`
  unfoldable pub recover_task : Option KeptHandle → Effect (World S) Watch
  unfolding load recover_state
  recover_task none w = (w, err no_handle)
  recover_task (some kept) w = elim (load kept.task.task_id w.1) [
    | some _ ↦ (w, ok unwatched)
    | none ↦ recover_state kept w
  ]
