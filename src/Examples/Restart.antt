-- ===== src/Examples/Restart.antt =====
-- A server that is launched, and the plugin restarted.
use nomad_driver_steamcmd.Base.{
  nat_eq, bytes, text_beq, text_eq, read_digits, false, some, [], ok, ◌≡◌, refl,
}
use nomad_driver_steamcmd.Regexp.{submatch}
use nomad_driver_steamcmd.Mounts.{setup_mounts}
use nomad_driver_steamcmd.Steamcmd.Patterns.{is_app_id, re_state_flags}
use nomad_driver_steamcmd.FilePath.{is_abs}
use nomad_driver_steamcmd.Launch.{magnitude}
use nomad_driver_steamcmd.Lifecycle.Store.{on_host, act, keep_handle, or_delete}
use nomad_driver_steamcmd.Lifecycle.Adopt.{adopt_or_reap}
use nomad_driver_steamcmd.Task.{new_task_handle, load}
use nomad_driver_steamcmd.Lifecycle.Host.{task_log_files}
use nomad_driver_steamcmd.Lifecycle.Start.{start_task}
use nomad_driver_steamcmd.Lifecycle.Recover.{watched, live_of, recover_task}
use nomad_driver_steamcmd.Process.{proc_alive}
use nomad_driver_steamcmd.Lifecycle.Recover.Restart.{kept, recover_task-start_task}
use nomad_driver_steamcmd.Examples.Lifecycle.{host, plugin, task, state}

recover_task-start_task_example :
    let r = recover_task host (some (kept host (task false) state)) (9, []) in
    (load (bytes "t") r.0.1 ≡ load (bytes "t") (start_task host plugin (task false) (5, [])).0.1)
    × (r.1 ≡ ok watched)
unfolding start_task text_beq new_task_handle is_app_id re_state_flags read_digits submatch on_host
    setup_mounts keep_handle or_delete task_log_files adopt_or_reap magnitude act is_abs live_of
    proc_alive
recover_task-start_task_example =
    recover_task-start_task host (task false) state plugin (5, []) 9 7 [] refl refl refl refl
