-- ===== src/Lifecycle/Failed/Steps.antt =====
-- The steps of a start, each of which leaves other tasks alone and, when it fails, its own task out of
-- the store.
use nomad_driver_steamcmd.Base.{
  ℕ, Text, bytes, text_eq, ◌==◌, Bool-cases, Option, none, some, List, List-cases, [], ◌∷◌, arith,
  inl, inr,
}
use nomad_driver_steamcmd.Base.Effects.{Effect, pure}
use nomad_driver_steamcmd.Config.{PluginConfig, TaskConfig, LaunchConfig}
use nomad_driver_steamcmd.Launch.{WindowsRuntime}
use nomad_driver_steamcmd.Task.{TaskHandle, TaskState}
use nomad_driver_steamcmd.Lifecycle.Host.{NomadTask, Host, Checked}
use nomad_driver_steamcmd.Lifecycle.Store.{World, or_delete}
use nomad_driver_steamcmd.Lifecycle.Adopt.{adopt, adopt_found, adopt_or_reap}
use nomad_driver_steamcmd.Lifecycle.Install.{or_tell, may_skip, run_steamcmd, install}
use nomad_driver_steamcmd.Lifecycle.Start.{
  finish_install, with_runtime, stage_files, launch_process, launch_task, find_earlier, start_fresh,
  start_logged, closing, start_checked,
}
use nomad_driver_steamcmd.Lifecycle.Restores.{
  Spares, Restores, on_host-Spares, act-Restores, pure-Restores, keep_handle-Restores,
  read-Restores, bind-Spares, bind-Restores, or_delete-Restores, call-Restores, choose-Restores,
}

module _ {S : Type 0} (host : Host S) (plugin : PluginConfig) (task : NomadTask) where
  abbrev Restored : {A : Type 0} → Effect (World S) A → Type 0
  Restored m = Restores task.task_id m

  or_tell-Restores : {A : Type 0} (m : Effect (World S) A) → Restored m → Restored (or_tell host m)
  unfolding Spares or_tell
  or_tell-Restores m kept = record {
    spares = λ key w other. ground (kept.spares key w other, arith);
    fails = λ w h. ground (kept.fails w, h, arith);
  }

  closing-Restores :
      {A : Type 0} (files : ℕ × ℕ) (m : Effect (World S) A)
      → Restored m
      → Restored (closing host files m)
  unfolding Spares closing
  closing-Restores files m kept = record {
    spares = λ key w other. kept.spares key w other;
    fails = λ w h. kept.fails w h;
  }

  adopt-Spares :
      (cfg : TaskConfig) (h : TaskHandle) (dir : Text) (root found : ℕ)
      → Spares task.task_id (adopt host plugin task cfg h dir root found)
  unfolding adopt
  adopt-Spares cfg h dir root found =
      bind-Spares task.task_id _ _ (act-Restores task.task_id _).spares (λ _.
        bind-Spares task.task_id _ _ (on_host-Spares task.task_id _) (λ cleaned.
          bind-Spares task.task_id _ _ (on_host-Spares task.task_id _) (λ now.
            bind-Spares task.task_id _ _ (keep_handle-Restores task.task_id _).spares (λ _.
              bind-Spares task.task_id _ _ (on_host-Spares task.task_id _) (λ _.
                bind-Spares task.task_id _ _ (act-Restores task.task_id _).spares
                  (λ _. (pure-Restores task.task_id _).spares))))))

  adopt_found-Spares :
      (cfg : TaskConfig) (h : TaskHandle) (dir : Text) (found work : List ℕ)
      → Spares task.task_id (adopt_found host plugin task cfg h dir found work)
  unfolding adopt_found
  adopt_found-Spares cfg h dir [] work = (pure-Restores task.task_id _).spares
  adopt_found-Spares cfg h dir (p ∷ found) [] =
      bind-Spares task.task_id _ _ (on_host-Spares task.task_id _)
        (λ _. (pure-Restores task.task_id _).spares)
  adopt_found-Spares cfg h dir (p ∷ found) (pid ∷ work) =
      bind-Spares task.task_id _ _ (adopt-Spares cfg h dir _ _)
        (λ state. (pure-Restores task.task_id _).spares)

  adopt_or_reap-Spares :
      (cfg : TaskConfig) (h : TaskHandle) (dir : Text)
      → Spares task.task_id (adopt_or_reap host plugin task cfg h dir)
  unfolding adopt_or_reap
  adopt_or_reap-Spares cfg h dir =
      bind-Spares task.task_id _ _ (on_host-Spares task.task_id _) (λ found.
        bind-Spares task.task_id _ _ (on_host-Spares task.task_id _)
          (λ work. adopt_found-Spares cfg h dir found work))

  adopt_or_reap-Restores :
      (cfg : TaskConfig) (h : TaskHandle) (dir : Text)
      → Restored (or_delete task.task_id (adopt_or_reap host plugin task cfg h dir))
  adopt_or_reap-Restores cfg h dir =
      or_delete-Restores task.task_id _ (adopt_or_reap-Spares cfg h dir)

  find_earlier-Restores :
      (checked : Checked) (h : TaskHandle) → Restored (find_earlier host plugin task checked h)
  unfolding find_earlier
  find_earlier-Restores checked h = go checked.config.launch
    where
      go :
          (launch : Option LaunchConfig)
          → Restored (elim launch as (λ _. Effect (World S) (Option TaskState)) [
            | none ↦ pure none
            | some _ ↦
                or_delete task.task_id (adopt_or_reap host plugin task checked.config h checked.dir)
          ])
      go none = pure-Restores task.task_id none
      go (some launch) = adopt_or_reap-Restores checked.config h checked.dir

  run_steamcmd-Restores :
      (checked : Checked) → Restored (run_steamcmd host plugin task.task_id checked)
  unfolding run_steamcmd
  run_steamcmd-Restores checked =
      bind-Restores task.task_id _ _ (call-Restores task.task_id _) (λ args.
        bind-Restores task.task_id _ _ (or_tell-Restores _ (call-Restores task.task_id _))
          (λ message. act-Restores task.task_id _))

  install-Restores : (checked : Checked) → Restored (install host plugin task.task_id checked)
  unfolding install
  install-Restores checked =
      choose-Restores task.task_id (λ w. may_skip host checked w.0) _ _
        (act-Restores task.task_id _) (run_steamcmd-Restores checked)

  finish_install-Restores :
      (checked : Checked) (h : TaskHandle) → Restored (finish_install host task.task_id checked h)
  unfolding finish_install
  finish_install-Restores checked h =
      bind-Restores task.task_id _ _ (read-Restores task.task_id _) (λ now.
        bind-Restores task.task_id _ _ (keep_handle-Restores task.task_id _) (λ _.
          bind-Restores task.task_id _ _ (call-Restores task.task_id _) (λ _.
            bind-Restores task.task_id _ _ (keep_handle-Restores task.task_id _)
              (λ _. pure-Restores task.task_id _))))

  stage_files-Restores : (checked : Checked) → Restored (stage_files host task checked)
  unfolding stage_files
  stage_files-Restores checked = elim (List-cases checked.config.config_files) [
    | inl empty ↦ rw empty (pure-Restores task.task_id tt)
    | inr (m, maps, more) ↦ rw more (call-Restores task.task_id _)
  ]

  with_runtime-Restores :
      (cfg : TaskConfig) (h : TaskHandle) → Restored (with_runtime host plugin task cfg h)
  unfolding with_runtime
  with_runtime-Restores cfg h = elim (Bool-cases (cfg.platform == bytes "windows")) [
    | inl windows ↦ rw windows (
        bind-Restores task.task_id _ _ (call-Restores task.task_id _) (λ rt.
          bind-Restores task.task_id _ _ (read-Restores task.task_id _) (λ clean.
            bind-Restores task.task_id _ _ (keep_handle-Restores task.task_id _)
              (λ _. pure-Restores task.task_id _))))
    | inr other ↦ rw other (pure-Restores task.task_id _)
  ]

  launch_process-Restores :
      (checked : Checked) (launch : LaunchConfig) (rt : WindowsRuntime) (h : TaskHandle)
      → Restored (launch_process host task checked launch rt h)
  unfolding launch_process
  launch_process-Restores checked launch rt h =
      bind-Restores task.task_id _ _ (read-Restores task.task_id _) (λ stale.
        bind-Restores task.task_id _ _ (read-Restores task.task_id _) (λ command.
          bind-Restores task.task_id _ _ (call-Restores task.task_id _) (λ pid.
            bind-Restores task.task_id _ _ (read-Restores task.task_id _) (λ now.
              bind-Restores task.task_id _ _ (keep_handle-Restores task.task_id _) (λ _.
                bind-Restores task.task_id _ _ (call-Restores task.task_id _) (λ _.
                  bind-Restores task.task_id _ _ (act-Restores task.task_id _) (λ _.
                    bind-Restores task.task_id _ _ (act-Restores task.task_id _)
                      (λ _. pure-Restores task.task_id _))))))))

  launch_task-Restores :
      (checked : Checked) (launch : LaunchConfig) (h : TaskHandle)
      → Restored (launch_task host plugin task checked launch h)
  unfolding launch_task
  launch_task-Restores checked launch h =
      bind-Restores task.task_id _ _ (stage_files-Restores checked) (λ _.
        bind-Restores task.task_id _ _ (with_runtime-Restores checked.config h)
          (λ ready. launch_process-Restores checked launch ready.0 ready.1))

  start_fresh-Restores :
      (checked : Checked) (h : TaskHandle) → Restored (start_fresh host plugin task checked h)
  unfolding start_fresh
  start_fresh-Restores checked h =
      bind-Restores task.task_id _ _ (install-Restores checked) (λ _. go checked.config.launch)
    where
      go :
          (launch : Option LaunchConfig)
          → Restored (elim launch as (λ _. Effect (World S) TaskState) [
            | none ↦ finish_install host task.task_id checked h
            | some launch ↦ launch_task host plugin task checked launch h
          ])
      go none = finish_install-Restores checked h
      go (some launch) = launch_task-Restores checked launch h

  start_logged-Restores :
      (checked : Checked) (h : TaskHandle) → Restored (start_logged host plugin task checked h)
  unfolding start_logged
  start_logged-Restores checked h =
      bind-Restores task.task_id _ _ (find_earlier-Restores checked h) (λ earlier. go earlier)
    where
      go :
          (earlier : Option TaskState)
          → Restored (elim earlier as (λ _. Effect (World S) TaskState) [
            | some state ↦ pure state
            | none ↦ start_fresh host plugin task checked h
          ])
      go (some state) = pure-Restores task.task_id state
      go none = start_fresh-Restores checked h

  pub start_checked-Restores :
      (checked : Checked) → Restored (start_checked host plugin task checked)
  unfolding start_checked
  start_checked-Restores checked =
      bind-Restores task.task_id _ _ (read-Restores task.task_id _) (λ now.
        bind-Restores task.task_id _ _ (keep_handle-Restores task.task_id _) (λ _.
          bind-Restores task.task_id _ _ (call-Restores task.task_id _)
            (λ files. closing-Restores files _ (start_logged-Restores checked _))))
