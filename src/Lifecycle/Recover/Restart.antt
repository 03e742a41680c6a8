-- ===== src/Lifecycle/Recover/Restart.antt =====
-- A restart of the plugin between a start and a recovery.
use nomad_driver_steamcmd.Base.{
  ℕ, nat_eq, ◌==◌, false, some, List, [], ◌∷◌, ok, ◌≡◌, inl, inr, refl, ap, sym, subst, ◌∙◌,
}
use nomad_driver_steamcmd.Config.{PluginConfig}
use nomad_driver_steamcmd.Task.{
  TaskHandle, TaskState, phase_running, phase_exited, load, new_task_handle,
}
use nomad_driver_steamcmd.Lifecycle.Host.{NomadTask, Host}
use nomad_driver_steamcmd.Lifecycle.Store.{World, act, keep_handle}
use nomad_driver_steamcmd.Lifecycle.Start.{start_task}
use nomad_driver_steamcmd.Lifecycle.Tracked.{Over, Launched}
use nomad_driver_steamcmd.Lifecycle.Started.{start_task-Tracked}
use nomad_driver_steamcmd.Lifecycle.Recover.{
  KeptHandle, watched, readopted_handle, live_of, recover_found, recover_task,
}
use nomad_driver_steamcmd.Lifecycle.Recover.Found.{load-kept, made, recover_task-running}

module _ {S : Type 0} (host : Host S) (task : NomadTask) (state : TaskState) where
  -- What Nomad keeps of a task that was started.
  abbrev pub kept : KeptHandle
  kept = record { task = task; driver_state = ok state }

  -- The handle of a launched task is the one that a recovery makes of its state.
  Launched-readopted :
      (h : TaskHandle) (s : S)
      → Launched task h
      → h.state ≡ state
      → readopted_handle (made host kept state s) ≡ h
  unfolding readopted_handle new_task_handle
  Launched-readopted h s l same = λ i. record {
    id = sym l.new.identified i;
    name = sym l.new.named i;
    alloc_id = sym l.new.allocated i;
    state = sym same i;
    process = sym (l.runs.launched ∙ ap (λ (st : TaskState). some st.pid) same) i;
    exit_result = sym l.new.unjudged i;
    proc_state = sym l.runs.fresh.runs i;
    handle_started = sym (l.started ∙ ap (λ (st : TaskState). st.started_at) same) i;
    completed_at = sym l.new.unended i;
    closes = sym l.runs.fresh.open_ i;
  }

  recovered :
      (pid : ℕ) (pids : List ℕ) (s : S)
      → live_of host task state.pid s ≡ pid ∷ pids
      → state.phase ≡ phase_running
      → (state.pid == 0) ≡ false
      → let r = recover_task host (some kept) (s, []) in
        (load task.task_id r.0.1 ≡ some (readopted_handle (made host kept state s)))
        × (r.1 ≡ ok watched)
  unfolding recover_found keep_handle act load
  recovered pid pids s alive phase some_pid =
      let h = made host kept state s in
      let steps =
        recover_task-running host kept state (s, []) refl refl phase some_pid
        ∙ ap (λ live. recover_found host live (host.procs.now s) task state h (s, [])) alive in
      subst (λ r. (load task.task_id r.0.1 ≡ some (readopted_handle h)) × (r.1 ≡ ok watched))
        (sym steps) (load-kept host kept (readopted_handle h) [], refl)

  -- A task that StartTask launched or took over survives a restart of the plugin: in a new plugin, which
  -- keeps no task yet, RecoverTask with the state that StartTask gave to Nomad has the very handle that
  -- the old plugin had, and watches it, if the process has an id other than 0 and the task has a live
  -- process by then.
  pub recover_task-start_task :
      (plugin : PluginConfig) (w : World S) (s : S) (pid : ℕ) (pids : List ℕ)
      → (start_task host plugin task w).1 ≡ ok state
      → state.phase ≡ phase_running
      → (state.pid == 0) ≡ false
      → live_of host task state.pid s ≡ pid ∷ pids
      → let r = recover_task host (some kept) (s, []) in
        (load task.task_id r.0.1 ≡ load task.task_id (start_task host plugin task w).0.1)
        × (r.1 ≡ ok watched)
  recover_task-start_task plugin w s pid pids began phase some_pid alive =
      let tracked = start_task-Tracked host plugin task w state began in
      let (again, watching) = recovered pid pids s alive phase some_pid in
      elim tracked.phase [
        | inl launched ↦ (
          again
              ∙ ap (λ h. some h) (Launched-readopted tracked.handle s launched tracked.same)
              ∙ sym tracked.stored,
          watching,
        )
        | inr over ↦ absurd (ended over tracked.same)
      ]
    where
      ended : {h : TaskHandle} → Over h → h.state ≡ state → ⊥
      ended over same =
          let e : phase_exited ≡ phase_running =
            sym over.phase ∙ ap (λ (st : TaskState). st.phase) same ∙ phase in
          cc
