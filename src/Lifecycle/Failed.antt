-- ===== src/Lifecycle/Failed.antt =====
-- What a start that fails leaves in `d.tasks`.
pub mod Steps
use nomad_driver_steamcmd.Base.{
  ℕ, Text, bytes, text_eq, text_beq_iff, ◌==◌, Bool-cases, false, Option, none, some, List,
  List-cases, [], ◌∷◌, Result, ok, err, is_ok, subst, ◌≡◌, refl, sym, ◌∙◌, arith, inl, inr,
  already_started,
}
use nomad_driver_steamcmd.Base.Effects.{Effect, pure, ◌>>=◌}
use nomad_driver_steamcmd.Config.{PluginConfig, TaskConfig, LaunchConfig}
use nomad_driver_steamcmd.Launch.{WindowsRuntime}
use nomad_driver_steamcmd.Task.{TaskHandle, Tasks, TaskState, load}
use nomad_driver_steamcmd.Lifecycle.Host.{NomadTask, Host, Checked, check_task}
use nomad_driver_steamcmd.Lifecycle.Store.{World, on_host, or_delete}
use nomad_driver_steamcmd.Lifecycle.Adopt.{adopt, adopt_found, adopt_or_reap}
use nomad_driver_steamcmd.Lifecycle.Install.{or_tell, may_skip, run_steamcmd, install}
use nomad_driver_steamcmd.Lifecycle.Start.{
  finish_install, with_runtime, stage_files, launch_process, launch_task, find_earlier, start_fresh,
  start_logged, closing, start_checked, start_task,
}
use nomad_driver_steamcmd.Lifecycle.Restores.{
  Spares, Restores, on_host-Spares, act-Restores, pure-Restores, keep_handle-Restores,
  read-Restores, bind-Spares, bind-Restores, or_delete-Restores, call-Restores, choose-Restores,
}
use nomad_driver_steamcmd.Lifecycle.Failed.Steps.{start_checked-Restores}

module _ {S : Type 0} (host : Host S) (plugin : PluginConfig) (task : NomadTask) where
  -- A start, for what the store has about the task.
  abbrev begun : World S → Option TaskHandle → World S × Result TaskState
  begun w (some _) = (w, err (already_started task.task_id))
  begun w none = (on_host (check_task host task) >>= start_checked host plugin task) w

  -- What comes after the checks, which leave the tasks as they are.
  abbrev checked_on : Tasks → S → Result Checked → World S × Result TaskState
  checked_on tasks t (ok checked) = start_checked host plugin task checked (t, tasks)
  checked_on tasks t (err e) = ((t, tasks), err e)

  checked_on-load :
      (tasks : Tasks) (key : Text) (t : S) (r : Result Checked)
      → load task.task_id tasks ≡ none
      → is_ok (checked_on tasks t r).1 ≡ false
      → load key (checked_on tasks t r).0.1 ≡ load key tasks
  unfolding Spares
  checked_on-load tasks key t (err e) free h = refl
  checked_on-load tasks key t (ok checked) free h =
      let kept = start_checked-Restores host plugin task checked in
      elim (Bool-cases (task.task_id == key)) [
        | inl same ↦
            subst
              (λ k. load k (start_checked host plugin task checked (t, tasks)).0.1 ≡ load k tasks)
              ((text_beq_iff task.task_id key).0 same) (kept.fails (t, tasks) h ∙ sym free)
        | inr other ↦ kept.spares key (t, tasks) other
      ]

  begun-load :
      (w : World S) (key : Text) (o : Option TaskHandle)
      → load task.task_id w.1 ≡ o
      → is_ok (begun w o).1 ≡ false
      → load key (begun w o).0.1 ≡ load key w.1
  unfolding on_host
  begun-load w key (some h) q failed_ = refl
  begun-load w key none q failed_ = checked_on-load w.1 key _ (check_task host task w.0).1 q failed_

  -- A start that fails, for whatever reason and at whatever point, leaves every task of the driver as
  -- it was: the new one is not tracked, and no other one is touched.
  pub start_task-load :
      (w : World S) (key : Text)
      → is_ok (start_task host plugin task w).1 ≡ false
      → load key (start_task host plugin task w).0.1 ≡ load key w.1
  unfolding start_task
  start_task-load w key = begun-load w key (load task.task_id w.1) refl
