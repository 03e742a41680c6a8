-- ===== src/Lifecycle/Others.antt =====
-- What an operation on one task does to the others.
use nomad_driver_steamcmd.Base.{
  ℕ, Text, text_eq, ◌==◌, nat_eq, Bool, Bool-cases, false, Option, none, some, List, [], ◌∷◌,
  Result, ok, err, already_started, ◌≡◌, refl, ap, ◌∙◌, arith, inl, inr,
}
use nomad_driver_steamcmd.Base.Effects.{pure, ◌>>=◌, ◌>>◌}
use nomad_driver_steamcmd.Config.{PluginConfig}
use nomad_driver_steamcmd.Task.{
  TaskHandle, TaskState, TaskPhase, Tasks, Machine, load, destroy_task, no_phase, phase_installing,
  phase_running, phase_exited,
}
use nomad_driver_steamcmd.Task.Destroy.{load-delete}
use nomad_driver_steamcmd.Lifecycle.Host.{NomadTask, Host, check_task}
use nomad_driver_steamcmd.Lifecycle.Store.{World, on_host, keep_handle}
use nomad_driver_steamcmd.Lifecycle.Start.{start_checked, start_task}
use nomad_driver_steamcmd.Lifecycle.Restores.{
  Spares, on_host-Spares, act-Restores, pure-Restores, keep_handle-Restores, bind-Spares,
}
use nomad_driver_steamcmd.Lifecycle.Failed.Steps.{start_checked-Restores}
use nomad_driver_steamcmd.Lifecycle.Recover.{
  KeptHandle, unwatched, live_of, recover_found, recover_running, recover_phase, recover_task,
}
use nomad_driver_steamcmd.Lifecycle.Recover.Found.{by_store, by_store_lem, by_state, by_state_lem}

module _ {S : Type 0} (host : Host S) where
  start_task-Spares :
      (plugin : PluginConfig) (task : NomadTask) → Spares task.task_id (start_task host plugin task)
  unfolding Spares start_task
  start_task-Spares plugin task key w other = go (load task.task_id w.1)
    where
      go :
          (o : Option TaskHandle)
          → load key
              (elim o as (λ _. World S × Result TaskState) [
                | some _ ↦ (w, err (already_started task.task_id))
                | none ↦ (on_host (check_task host task) >>= start_checked host plugin task) w
              ]).0.1
            ≡ load key w.1
      go (some h) = refl
      go none =
          bind-Spares task.task_id (on_host (check_task host task)) (start_checked host plugin task)
            (on_host-Spares task.task_id (check_task host task))
            (λ checked. (start_checked-Restores host plugin task checked).spares) key w other

  recover_found-Spares :
      (live : List ℕ) (now : ℕ) (task : NomadTask) (state : TaskState) (h : TaskHandle)
      → Spares task.task_id (recover_found host live now task state h)
  unfolding recover_found
  recover_found-Spares [] now task state h =
      bind-Spares task.task_id _ _ (keep_handle-Restores task.task_id _).spares
        (λ _. (pure-Restores task.task_id _).spares)
  recover_found-Spares (pid ∷ live) now task state h =
      bind-Spares task.task_id _ _ (keep_handle-Restores task.task_id _).spares (λ _.
        bind-Spares task.task_id _ _ (act-Restores task.task_id _).spares
          (λ _. (pure-Restores task.task_id _).spares))

  kept-Spares :
      (id : Text) (h : TaskHandle) → Spares id (keep_handle {S = S} id h >> pure unwatched)
  kept-Spares id h =
      bind-Spares id _ _ (keep_handle-Restores id h).spares (λ _. (pure-Restores id _).spares)

  recover_phase-Spares :
      (phase : TaskPhase) (task : NomadTask) (state : TaskState) (h : TaskHandle)
      → Spares task.task_id (recover_phase host phase task state h)
  unfolding Spares recover_phase recover_running
  recover_phase-Spares no_phase task state h key w other = kept-Spares task.task_id _ key w other
  recover_phase-Spares phase_installing task state h key w other =
      kept-Spares task.task_id _ key w other
  recover_phase-Spares phase_exited task state h key w other =
      kept-Spares task.task_id _ key w other
  recover_phase-Spares phase_running task state h key w other = elim (Bool-cases (state.pid == 0)) [
    | inl none_there ↦ rw none_there refl
    | inr pid ↦ rw pid (
        recover_found-Spares (live_of host task state.pid w.0) (host.procs.now w.0) task state h key
          w other)
  ]

  recover_task-Spares :
      (kept : KeptHandle) → Spares kept.task.task_id (recover_task host (some kept))
  unfolding Spares
  recover_task-Spares kept key w other =
      ap (λ r. load key r.0.1) (by_store_lem host kept w) ∙ go (load kept.task.task_id w.1)
    where
      state_spares : (r : Result TaskState) → load key (by_state host kept w r).0.1 ≡ load key w.1
      state_spares (ok state) = recover_phase-Spares state.phase kept.task state _ key w other
      state_spares (err e) = refl

      go : (o : Option TaskHandle) → load key (by_store host kept w o).0.1 ≡ load key w.1
      go (some h) = refl
      go none = ap (λ r. load key r.0.1) (by_state_lem host kept w) ∙ state_spares kept.driver_state

  destroy_task-spares :
      (machine : Machine S) (id key : Text) (force : Bool) (tasks : Tasks) (s : S)
      → (id == key) ≡ false
      → load key (destroy_task machine id force tasks s).0.1 ≡ load key tasks
  unfolding destroy_task
  destroy_task-spares machine id key force tasks s other =
      ground (arith, load-delete key id tasks, other)

  -- Whatever comes of it, an operation on one task leaves every other task of the driver as it was: of
  -- those that change the driver's tasks, StartTask, RecoverTask and DestroyTask.
  pub operations-Spares :
      (plugin : PluginConfig) (machine : Machine S) (task : NomadTask) (state : Result TaskState)
      (force : Bool) (key : Text) (w : World S)
      → (task.task_id == key) ≡ false
      → (load key (start_task host plugin task w).0.1 ≡ load key w.1)
        × (load key (recover_task host (some (record { task = task; driver_state = state })) w).0.1
            ≡ load key w.1)
        × (load key (destroy_task machine task.task_id force w.1 w.0).0.1 ≡ load key w.1)
  unfolding Spares
  operations-Spares plugin machine task state force key w other = (
    start_task-Spares plugin task key w other,
    recover_task-Spares (record { task = task; driver_state = state }) key w other,
    destroy_task-spares machine task.task_id key force w.1 w.0 other,
  )
