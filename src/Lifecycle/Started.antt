-- ===== src/Lifecycle/Started.antt =====
-- What a start that succeeds has put in `d.tasks`.
pub mod Fresh
use nomad_driver_steamcmd.Base.{
  ℕ, bytes, text_eq, ◌==◌, Bool-cases, Option, none, some, Result, ok, err, ◌≡◌, refl, inl, inr,
  already_started,
}
use nomad_driver_steamcmd.Base.Effects.{Effect, pure, ◌>>=◌}
use nomad_driver_steamcmd.Config.{PluginConfig, TaskConfig, LaunchConfig}
use nomad_driver_steamcmd.Launch.{WindowsRuntime}
use nomad_driver_steamcmd.Task.{TaskHandle, Tasks, TaskState, load, new_task_handle}
use nomad_driver_steamcmd.Lifecycle.Host.{NomadTask, Host, Checked, check_task}
use nomad_driver_steamcmd.Lifecycle.Store.{World, on_host, or_delete}
use nomad_driver_steamcmd.Lifecycle.Adopt.{run_handle, adopt_or_reap}
use nomad_driver_steamcmd.Lifecycle.Install.{install}
use nomad_driver_steamcmd.Lifecycle.Start.{
  over_handle, close_done, finish_install, with_runtime, stage_files, launch_process, launch_task,
  find_earlier, start_fresh, start_logged, closing, start_checked, start_task,
}
use nomad_driver_steamcmd.Lifecycle.Triple.{
  Triple, bind-Triple, pure-Triple, store-Triple, any-Triple, act-Triple, on_host-Triple,
  keep_handle-Triple, or_delete-Triple, call-Triple,
}
use nomad_driver_steamcmd.Lifecycle.Tracked.{
  New, Tracked, Taken, run_handle-Tracked, close_done-Tracked, adopt_or_reap-Taken,
}
use nomad_driver_steamcmd.Lifecycle.Started.Fresh.{start_fresh-Tracked}

module _ {S : Type 0} (host : Host S) (plugin : PluginConfig) (task : NomadTask) where
  find_earlier-Taken :
      (checked : Checked) (h : TaskHandle)
      → New task h
      → Triple S (λ _. Unit) (find_earlier host plugin task checked h) (Taken task)
  unfolding find_earlier
  find_earlier-Taken checked h fresh = go checked.config.launch
    where
      go :
          (launch : Option LaunchConfig)
          → Triple S
              (λ _. Unit)
              (elim launch as (λ _. Effect (World S) (Option TaskState)) [
                | none ↦ pure none
                | some _ ↦
                    or_delete task.task_id
                      (adopt_or_reap host plugin task checked.config h checked.dir)
              ])
              (Taken task)
      go none = pure-Triple S _ (Taken task) none (λ tasks h. tt)
      go (some launch) =
          or_delete-Triple S _ _ task.task_id _
            (adopt_or_reap-Taken host plugin task checked.config h checked.dir fresh)

  start_logged-Tracked :
      (checked : Checked) (h : TaskHandle)
      → New task h
      → Triple S (λ _. Unit) (start_logged host plugin task checked h) (Tracked task)
  unfolding start_logged
  start_logged-Tracked checked h fresh =
      bind-Triple S _ (Taken task) _ _ _ (find_earlier-Taken checked h fresh)
        (λ earlier. go earlier)
    where
      go :
          (earlier : Option TaskState)
          → Triple S
              (Taken task earlier)
              (elim earlier as (λ _. Effect (World S) TaskState) [
                | some state ↦ pure state
                | none ↦ start_fresh host plugin task checked h
              ])
              (Tracked task)
      go (some state) = pure-Triple S _ _ state (λ tasks tracked. tracked)
      go none = start_fresh-Tracked host plugin task checked h fresh

  pub closing-Triple :
      {A : Type 0} (before : Tasks → Type 0) (after : A → Tasks → Type 0) (files : ℕ × ℕ)
      (m : Effect (World S) A)
      → Triple S before m after
      → Triple S before (closing host files m) after
  unfolding closing Triple
  closing-Triple before after files m kept w h a e = kept w h a e

  start_checked-Tracked :
      (checked : Checked)
      → Triple S (λ _. Unit) (start_checked host plugin task checked) (Tracked task)
  unfolding start_checked new_task_handle
  start_checked-Tracked checked =
      bind-Triple S _ (λ _ _. Unit) _ _ _ (on_host-Triple S _ _)
        (λ now.
          bind-Triple S _ (λ _ _. Unit) _ _ _ (store-Triple S Unit _ _)
            (λ _.
              bind-Triple S _ (λ _ _. Unit) _ _ _ (call-Triple S _ task.task_id _)
                (λ files. closing-Triple _ _ files _ (
                  start_logged-Tracked checked
                    (new_task_handle task.task_id task.task_name task.alloc_id now)
                    (record {
                      fresh = record { runs = refl; open_ = refl };
                      identified = refl;
                      named = refl;
                      allocated = refl;
                      unended = refl;
                      unjudged = refl;
                    })))))

  -- A start, for what the store has about the task.
  abbrev begun : World S → Option TaskHandle → World S × Result TaskState
  begun w (some _) = (w, err (already_started task.task_id))
  begun w none = (on_host (check_task host task) >>= start_checked host plugin task) w

  begun-Tracked :
      (w : World S) (o : Option TaskHandle) (state : TaskState)
      → (begun w o).1 ≡ ok state
      → Tracked task state (begun w o).0.1
  unfolding Triple
  begun-Tracked w (some h) state e = cc
  begun-Tracked w none state e =
      bind-Triple S (λ _. Unit) (λ _ _. Unit) (Tracked task) (on_host (check_task host task))
        (start_checked host plugin task) (on_host-Triple S _ _) start_checked-Tracked w tt state e

  -- When a start succeeds, the task is tracked with the state that Nomad is given: its process runs,
  -- with the id that the state has, and nothing has closed `doneCh`; or it was only an install, which
  -- is over, and `doneCh` was closed once.
  pub start_task-Tracked :
      (w : World S) (state : TaskState)
      → (start_task host plugin task w).1 ≡ ok state
      → Tracked task state (start_task host plugin task w).0.1
  unfolding start_task
  start_task-Tracked w = begun-Tracked w (load task.task_id w.1)
