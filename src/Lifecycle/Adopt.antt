-- ===== src/Lifecycle/Adopt.antt =====
-- driver/adopt.go: an earlier instance of a task that still runs is taken over, and its helpers are
-- ended if they are all that is left of it.
use nomad_driver_steamcmd.Base.{
  ℕ, ltb, nat_eq, Text, bytes, text_eq, ◌==◌, length, pos, not, Option, none, some, List, [], ◌∷◌,
  if◌then◌else◌, ok, err, helpers_remain, setting_state,
}
use nomad_driver_steamcmd.Base.Effects.{Effect, pure, wrap, ◌>>=◌, ◌>>◌}
use nomad_driver_steamcmd.Config.{PluginConfig, TaskConfig}
use nomad_driver_steamcmd.Launch.{resolve_windows_runtime, cleanup}
use nomad_driver_steamcmd.Process.{task_key, task_marker}
use nomad_driver_steamcmd.Process.Members.{find_marked, is_support, kept}
use nomad_driver_steamcmd.Process.Terminate.{seconds, terminate_processes}
use nomad_driver_steamcmd.LogFollow.{FileInfo, resolve_follow_paths, snapshot_files}
use nomad_driver_steamcmd.Task.{TaskHandle, TaskState, phase_running}
use nomad_driver_steamcmd.Lifecycle.Host.{NomadTask, Host, cleaning, readopted, following}
use nomad_driver_steamcmd.Lifecycle.Store.{World, on_host, act, keep_handle}

-- The lowest of `root` and the others.
unfoldable pub lowest : ℕ → List ℕ → ℕ
lowest root [] = root
lowest root (pid ∷ pids) = lowest (if ltb pid root then pid else root) pids

unfoldable pub marker_of : NomadTask → Text
unfolding task_key task_marker
marker_of task = task_marker (task_key task.alloc_id task.task_name)

-- The handle of a task of which the process `pid` runs.
unfoldable pub run_handle : TaskHandle → TaskConfig → Text → ℕ → ℕ → TaskHandle
run_handle h cfg dir pid now = record h {
  process = some pid;
  handle_started = now;
  state = record (h.state) {
    phase = phase_running;
    pid = pid;
    app_id = cfg.app_id;
    install_dir = dir;
    started_at = now;
  };
}

module _ {S : Type 0} (host : Host S) where
  -- `startLogFollowers`; what the follower writes goes to a handle of its own.
  unfoldable pub start_log_followers : NomadTask → List Text → List (Text × FileInfo) → S → S
  start_log_followers task [] stale s = s
  start_log_followers task (p ∷ paths) stale s =
      let (t, opened) = host.open_log task.stdout_path s in
      elim opened [
        | err _ ↦ t
        | ok fd ↦ host.emit (following (length (p ∷ paths))) (host.follow (p ∷ paths) stale fd t)
      ]

  -- The processes that carry the task's marker.
  unfoldable pub list_marked : NomadTask → S → List ℕ × S
  unfolding find_marked marker_of
  list_marked task s = (find_marked (host.proc_dir s) (marker_of task) host.self, s)

  -- Only helpers are left; 2 is SIGINT.
  unfoldable pub reap : NomadTask → List ℕ → Effect S (Unit {0})
  unfolding list_marked terminate_processes
  reap task found s =
      let procs = record (host.procs) { list = list_marked task } in
      let (gone, t) =
        terminate_processes procs (pos 2) (seconds 10) (host.emit (cleaning (length found)) s) in
      if gone then (t, ok tt) else (t, err helpers_remain)

  -- The runtime's clean-up, if there is a runtime.
  unfoldable pub adopted_cleanup :
      PluginConfig → NomadTask → TaskConfig → TaskHandle → S → TaskHandle
  adopted_cleanup plugin task cfg h s =
      if cfg.platform == bytes "windows"
      then elim (resolve_windows_runtime (host.stat s) cfg plugin task.task_dir (host.home s)) [
        | ok rt ↦ record h { state = record (h.state) { wine_cleanup = cleanup (host.stat s) rt } }
        | err _ ↦ h
      ]
      else h

  unfoldable pub adopt :
      PluginConfig → NomadTask → TaskConfig → TaskHandle → Text → ℕ → ℕ → Effect (World S) TaskState
  unfolding adopted_cleanup run_handle
  adopt plugin task cfg h dir root found = do
    act (host.emit (readopted found))
    cleaned ← on_host (λ s. (s, ok (adopted_cleanup plugin task cfg h s)))
    now ← on_host (λ s. (s, ok (host.procs.now s)))
    let running = run_handle cleaned cfg dir root now
    keep_handle task.task_id running
    on_host (wrap setting_state (host.set_state running.state))
    let paths = resolve_follow_paths dir cfg.follow_logs
    act (λ s. start_log_followers task paths (snapshot_files (host.file_info s) paths) s)
    pure running.state

  -- What is done about the processes that were found, of which `work` are no helpers.
  unfoldable pub adopt_found :
      PluginConfig
      → NomadTask
      → TaskConfig
      → TaskHandle
      → Text
      → List ℕ
      → List ℕ
      → Effect (World S) (Option TaskState)
  unfolding reap adopt lowest
  adopt_found plugin task cfg h dir [] work = pure none
  adopt_found plugin task cfg h dir (p ∷ found) [] = do on_host (reap task (p ∷ found)); pure none
  adopt_found plugin task cfg h dir (p ∷ found) (pid ∷ work) = do
    state ← adopt plugin task cfg h dir (lowest pid work) (length (p ∷ found))
    pure (some state)

  -- `adoptOrReap`
  unfoldable pub adopt_or_reap :
      PluginConfig
      → NomadTask
      → TaskConfig
      → TaskHandle
      → Text
      → Effect (World S) (Option TaskState)
  unfolding adopt_found list_marked kept is_support
  adopt_or_reap plugin task cfg h dir = do
    found ← on_host (λ s. (s, ok (list_marked task s).0))
    work ← on_host (λ s. (s, ok (kept (λ pid. not (is_support (host.procs.comm pid s))) found)))
    adopt_found plugin task cfg h dir found work
