-- ===== src/Lifecycle/Started/Fresh.antt =====
-- A start that finds no earlier instance of its task: the install, and the launch if there is one.
use nomad_driver_steamcmd.Base.{bytes, text_eq, ◌==◌, Bool-cases, Option, none, some, ◌≡◌, inl, inr}
use nomad_driver_steamcmd.Base.Effects.{Effect}
use nomad_driver_steamcmd.Config.{PluginConfig, TaskConfig, LaunchConfig}
use nomad_driver_steamcmd.Launch.{WindowsRuntime}
use nomad_driver_steamcmd.Task.{TaskHandle, Tasks, TaskState, load}
use nomad_driver_steamcmd.Lifecycle.Host.{NomadTask, Host, Checked}
use nomad_driver_steamcmd.Lifecycle.Store.{World}
use nomad_driver_steamcmd.Lifecycle.Adopt.{run_handle}
use nomad_driver_steamcmd.Lifecycle.Install.{install}
use nomad_driver_steamcmd.Lifecycle.Start.{
  over_handle, close_done, finish_install, with_runtime, stage_files, launch_process, launch_task,
  start_fresh,
}
use nomad_driver_steamcmd.Lifecycle.Triple.{
  Triple, bind-Triple, pure-Triple, store-Triple, any-Triple, act-Triple, on_host-Triple,
  keep_handle-Triple, call-Triple,
}
use nomad_driver_steamcmd.Lifecycle.Tracked.{New, Tracked, run_handle-Tracked, close_done-Tracked}

module _ {S : Type 0} (host : Host S) (plugin : PluginConfig) (task : NomadTask) where
  finish_install-Tracked :
      (checked : Checked) (h : TaskHandle)
      → New task h
      → Triple S (λ _. Unit) (finish_install host task.task_id checked h) (Tracked task)
  unfolding finish_install
  finish_install-Tracked checked h fresh =
      bind-Triple S _ (λ _ _. Unit) _ _ _ (on_host-Triple S _ _)
        (λ now.
          let over = over_handle h checked.config checked.dir now in
          bind-Triple S _ (λ _ _. Unit) _ _ _ (store-Triple S Unit _ _)
            (λ _.
              bind-Triple S _ (λ _ _. Unit) _ _ _ (call-Triple S _ task.task_id _)
                (λ _.
                  bind-Triple S _
                    (λ _ tasks. Unit × (load task.task_id tasks ≡ some (close_done over))) _ _ _
                    (keep_handle-Triple S Unit _ _)
                    (λ _. pure-Triple S _ _ over.state (λ tasks (_, stored).
                      close_done-Tracked task h checked.config checked.dir now tasks fresh
                        stored)))))

  with_state :
      {h : TaskHandle} {state : TaskState} → New task h → New task (record h { state = state })
  with_state new = record {
    fresh = record { runs = new.fresh.runs; open_ = new.fresh.open_ };
    identified = new.identified;
    named = new.named;
    allocated = new.allocated;
    unended = new.unended;
    unjudged = new.unjudged;
  }

  with_runtime-New :
      (cfg : TaskConfig) (h : TaskHandle)
      → New task h
      → Triple S (λ _. Unit) (with_runtime host plugin task cfg h) (λ ready _. New task ready.1)
  unfolding with_runtime
  with_runtime-New cfg h fresh = elim (Bool-cases (cfg.platform == bytes "windows")) [
    | inl windows ↦ rw windows (
        bind-Triple S _ (λ _ _. Unit) _ _ _ (call-Triple S _ task.task_id _)
          (λ rt.
            bind-Triple S _ (λ _ _. Unit) _ _ _ (on_host-Triple S _ _)
              (λ clean.
                bind-Triple S _ (λ _ _. Unit) _ _ _ (store-Triple S Unit _ _)
                  (λ _.
                    pure-Triple S _ _
                      (rt, record h { state = record (h.state) { wine_cleanup = clean } })
                      (λ tasks _. with_state fresh)))))
    | inr other ↦ rw other (pure-Triple S _ _ _ (λ tasks _. fresh))
  ]

  -- A process that was launched: its handle is kept, and stays.
  abbrev With : TaskHandle → TaskHandle → Tasks → Type 0
  With h running tasks = New task h × (load task.task_id tasks ≡ some running)

  launch_process-Tracked :
      (checked : Checked) (launch : LaunchConfig) (rt : WindowsRuntime) (h : TaskHandle)
      → Triple S (λ _. New task h) (launch_process host task checked launch rt h) (Tracked task)
  unfolding launch_process
  launch_process-Tracked checked launch rt h =
      bind-Triple S _ (λ _ _. New task h) _ _ _ (on_host-Triple S _ _)
        (λ stale.
          bind-Triple S _ (λ _ _. New task h) _ _ _ (on_host-Triple S _ _)
            (λ command.
              bind-Triple S _ (λ _ _. New task h) _ _ _ (call-Triple S _ task.task_id _)
                (λ pid.
                  bind-Triple S _ (λ _ _. New task h) _ _ _ (on_host-Triple S _ _)
                    (λ now.
                      let running = run_handle h checked.config checked.dir pid now in
                      bind-Triple S _ (λ _. With h running) _ _ _
                        (keep_handle-Triple S (New task h) _ _)
                        (λ _.
                          bind-Triple S _ (λ _. With h running) _ _ _
                            (call-Triple S _ task.task_id _)
                            (λ _.
                              bind-Triple S _ (λ _. With h running) _ _ _ (act-Triple S _ _)
                                (λ _.
                                  bind-Triple S _ (λ _. With h running) _ _ _ (act-Triple S _ _)
                                    (λ _. pure-Triple S _ _ running.state (λ tasks (fresh, stored).
                                      run_handle-Tracked task h checked.config checked.dir pid now
                                        tasks fresh stored)))))))))

  launch_task-Tracked :
      (checked : Checked) (launch : LaunchConfig) (h : TaskHandle)
      → New task h
      → Triple S (λ _. Unit) (launch_task host plugin task checked launch h) (Tracked task)
  unfolding launch_task
  launch_task-Tracked checked launch h fresh =
      bind-Triple S _ (λ _ _. Unit) _ (stage_files host task checked) _
        (any-Triple S _ (stage_files host task checked))
        (λ _.
          bind-Triple S _ (λ ready _. New task ready.1) _ _ _
            (with_runtime-New checked.config h fresh)
            (λ ready. launch_process-Tracked checked launch ready.0 ready.1))

  pub start_fresh-Tracked :
      (checked : Checked) (h : TaskHandle)
      → New task h
      → Triple S (λ _. Unit) (start_fresh host plugin task checked h) (Tracked task)
  unfolding start_fresh
  start_fresh-Tracked checked h fresh =
      bind-Triple S _ (λ _ _. Unit) _ (install host plugin task.task_id checked) _
        (any-Triple S _ (install host plugin task.task_id checked)) (λ _. go checked.config.launch)
    where
      go :
          (launch : Option LaunchConfig)
          → Triple S
              (λ _. Unit)
              (elim launch as (λ _. Effect (World S) TaskState) [
                | none ↦ finish_install host task.task_id checked h
                | some launch ↦ launch_task host plugin task checked launch h
              ])
              (Tracked task)
      go none = finish_install-Tracked checked h fresh
      go (some launch) = launch_task-Tracked checked launch h fresh
