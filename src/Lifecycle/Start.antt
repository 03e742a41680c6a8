-- ===== src/Lifecycle/Start.antt =====
-- driver/lifecycle.go: `StartTask`.
use nomad_driver_steamcmd.Base.{
  ℕ, suc, Text, bytes, text_eq, ◌==◌, pos, Option, none, some, List, [], ◌∷◌, ◌++◌, map,
  if◌then◌else◌, ok, err, already_started, opening_logs, setting_state, launching,
}
use nomad_driver_steamcmd.Base.Effects.{Effect, pure, lift, wrap, ◌>>=◌, ◌>>◌}
use nomad_driver_steamcmd.Config.{PluginConfig, TaskConfig, LaunchConfig}
use nomad_driver_steamcmd.Stage.{stage_config_files, merge_config_files}
use nomad_driver_steamcmd.Launch.{
  WindowsRuntime, resolve_windows_runtime, cleanup, runtime_env, build_launch_command,
  resolve_launch_path,
}
use nomad_driver_steamcmd.LogFollow.{resolve_follow_paths, snapshot_files}
use nomad_driver_steamcmd.Task.{
  TaskHandle, TaskState, task_exited, phase_exited, new_task_handle, load,
}
use nomad_driver_steamcmd.Lifecycle.Host.{
  NomadTask, Host, Checked, Command, launched, check_task, task_log_files, close_logs, prepare,
}
use nomad_driver_steamcmd.Lifecycle.Store.{World, on_host, act, keep_handle, or_delete}
use nomad_driver_steamcmd.Lifecycle.Adopt.{
  marker_of, run_handle, start_log_followers, adopt_or_reap,
}
use nomad_driver_steamcmd.Lifecycle.Install.{install}

abbrev no_runtime : WindowsRuntime
no_runtime = record { proton_path = []; compat_data_path = []; client_path = [] }

unfoldable pub env_entry : Text × Text → Text
env_entry (k, v) = k ++ (b'=' ∷ v)

-- The environment of the launched process.
unfoldable pub launch_env :
    List Text → NomadTask → TaskConfig → LaunchConfig → WindowsRuntime → Text → List Text
unfolding env_entry marker_of runtime_env
launch_env environ task cfg launch rt dir =
    environ
    ++ ((if cfg.platform == bytes "windows" then runtime_env rt cfg.app_id dir else [])
        ++ (marker_of task ∷ (map env_entry launch.env ++ map env_entry task.task_env)))

-- The handle of an install without a launch, which is over.
unfoldable pub over_handle : TaskHandle → TaskConfig → Text → ℕ → TaskHandle
over_handle h cfg dir now = record h {
  proc_state = task_exited;
  completed_at = now;
  exit_result = some (record { exit_code = pos 0; signal_number = 0; failure = none });
  state = record (h.state) { phase = phase_exited; app_id = cfg.app_id; install_dir = dir };
}

unfoldable pub close_done : TaskHandle → TaskHandle
close_done h = record h { closes = suc h.closes }

module _ {S : Type 0} (host : Host S) where
  unfoldable pub finish_install : Text → Checked → TaskHandle → Effect (World S) TaskState
  unfolding over_handle close_done
  finish_install id checked h = do
    now ← on_host (λ s. (s, ok (host.procs.now s)))
    let over = over_handle h checked.config checked.dir now
    keep_handle id over
    or_delete id (on_host (wrap setting_state (host.set_state over.state)))
    keep_handle id (close_done over)
    pure over.state

  -- The runtime that is resolved and prepared.
  unfoldable pub windows_runtime : PluginConfig → NomadTask → TaskConfig → Effect S WindowsRuntime
  unfolding prepare
  windows_runtime plugin task cfg = do
    rt ← λ s. lift (resolve_windows_runtime (host.stat s) cfg plugin task.task_dir (host.home s)) s
    prepare host rt
    pure rt

  unfoldable pub with_runtime :
      PluginConfig
      → NomadTask
      → TaskConfig
      → TaskHandle
      → Effect (World S) (WindowsRuntime × TaskHandle)
  unfolding windows_runtime
  with_runtime plugin task cfg h =
      if cfg.platform == bytes "windows"
      then (do
        rt ← or_delete task.task_id (on_host (windows_runtime plugin task cfg))
        clean ← on_host (λ s. (s, ok (cleanup (host.stat s) rt)))
        let cleaned = record h { state = record (h.state) { wine_cleanup = clean } }
        keep_handle task.task_id cleaned
        pure (rt, cleaned))
      else pure (no_runtime, h)

  unfoldable pub stage_files : NomadTask → Checked → Effect (World S) (Unit {0})
  stage_files task checked = elim checked.config.config_files [
    | [] ↦ pure tt
    | m ∷ maps ↦ or_delete task.task_id (
        on_host (
          stage_config_files host.stage_os task.task_dir checked.dir
            (merge_config_files (m ∷ maps))))
  ]

  unfoldable pub command_of : NomadTask → Checked → LaunchConfig → WindowsRuntime → S → Command
  unfolding launch_env build_launch_command resolve_launch_path
  command_of task checked launch rt s =
      let (command, args) = build_launch_command checked.config launch rt in
      record {
        path = resolve_launch_path command checked.dir;
        arguments = args;
        folder = checked.dir;
        environment = launch_env (host.environ s) task checked.config launch rt checked.dir;
      }

  -- A failure to store the state kills the launched process.
  unfoldable pub or_kill : ℕ → Effect S (Unit {0}) → Effect S (Unit {0})
  or_kill pid m s =
      let (t, r) = m s in elim r [ ok _ ↦ (t, ok tt) | err e ↦ (host.kill pid t, err e) ]

  -- The launch proper.
  unfoldable pub launch_process :
      NomadTask → Checked → LaunchConfig → WindowsRuntime → TaskHandle → Effect (World S) TaskState
  unfolding command_of or_kill run_handle start_log_followers
  launch_process task checked launch rt h = do
    let paths = resolve_follow_paths checked.dir checked.config.follow_logs
    stale ← on_host (λ s. (s, ok (snapshot_files (host.file_info s) paths)))
    command ← on_host (λ s. (s, ok (command_of task checked launch rt s)))
    pid ← or_delete task.task_id (on_host (wrap (launching command.path) (host.launch command)))
    now ← on_host (λ s. (s, ok (host.procs.now s)))
    let running = run_handle h checked.config checked.dir pid now
    keep_handle task.task_id running
    or_delete task.task_id
        (on_host (wrap setting_state (or_kill pid (host.set_state running.state))))
    act (host.emit (launched command.path pid))
    act (start_log_followers host task paths stale)
    pure running.state

  unfoldable pub launch_task :
      PluginConfig → NomadTask → Checked → LaunchConfig → TaskHandle → Effect (World S) TaskState
  unfolding stage_files with_runtime launch_process
  launch_task plugin task checked launch h = do
    stage_files task checked
    ready ← with_runtime plugin task checked.config h
    launch_process task checked launch ready.0 ready.1

  unfoldable pub find_earlier :
      PluginConfig → NomadTask → Checked → TaskHandle → Effect (World S) (Option TaskState)
  find_earlier plugin task checked h = elim checked.config.launch [
    | none ↦ pure none
    | some _ ↦ or_delete task.task_id (adopt_or_reap host plugin task checked.config h checked.dir)
  ]

  -- What is done unless an earlier instance was adopted.
  unfoldable pub start_fresh :
      PluginConfig → NomadTask → Checked → TaskHandle → Effect (World S) TaskState
  unfolding install finish_install launch_task
  start_fresh plugin task checked h = do
    install host plugin task.task_id checked
    elim checked.config.launch [
      | none ↦ finish_install task.task_id checked h
      | some launch ↦ launch_task plugin task checked launch h
    ]

  -- `StartTask` with its log files open.
  unfoldable pub start_logged :
      PluginConfig → NomadTask → Checked → TaskHandle → Effect (World S) TaskState
  unfolding find_earlier start_fresh
  start_logged plugin task checked h = do
    earlier ← find_earlier plugin task checked h
    elim earlier [ some state ↦ pure state | none ↦ start_fresh plugin task checked h ]

  -- The log files are closed however the start ends.
  unfoldable pub closing : {A : Type 0} → ℕ × ℕ → Effect (World S) A → Effect (World S) A
  unfolding close_logs
  closing files m w = let (v, r) = m w in ((close_logs host files v.0, v.1), r)

  unfoldable pub start_checked : PluginConfig → NomadTask → Checked → Effect (World S) TaskState
  unfolding new_task_handle start_logged closing
  start_checked plugin task checked = do
    now ← on_host (λ s. (s, ok (host.procs.now s)))
    let h = new_task_handle task.task_id task.task_name task.alloc_id now
    keep_handle task.task_id h
    files ← or_delete task.task_id (on_host (wrap opening_logs (task_log_files host task)))
    closing files (start_logged plugin task checked h)

  -- `StartTask`
  unfoldable pub start_task : PluginConfig → NomadTask → Effect (World S) TaskState
  unfolding load check_task start_checked
  start_task plugin task w = elim (load task.task_id w.1) [
    | some _ ↦ (w, err (already_started task.task_id))
    | none ↦ (on_host (check_task host task) >>= start_checked plugin task) w
  ]
