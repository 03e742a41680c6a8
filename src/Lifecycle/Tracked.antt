-- ===== src/Lifecycle/Tracked.antt =====
-- What a task that is tracked is like, and that an instance which is taken over is.
use nomad_driver_steamcmd.Base.{
  ℕ, Text, text_eq, Option, none, some, List, [], ◌∷◌, ◌≡◌, ◌⊎◌, refl, inl, inr, arith, ap, suc,
}
use nomad_driver_steamcmd.Config.{PluginConfig, TaskConfig}
use nomad_driver_steamcmd.Task.{
  TaskHandle, Tasks, TaskState, ExitResult, load, task_running, task_exited, phase_running,
  phase_exited,
}
use nomad_driver_steamcmd.Lifecycle.Host.{NomadTask, Host}
use nomad_driver_steamcmd.Lifecycle.Adopt.{
  run_handle, adopted_cleanup, adopt, adopt_found, adopt_or_reap,
}
use nomad_driver_steamcmd.Lifecycle.Start.{over_handle, close_done}
use nomad_driver_steamcmd.Lifecycle.Triple.{
  Triple, bind-Triple, pure-Triple, act-Triple, read-Triple, on_host-Triple, keep_handle-Triple,
}

-- A handle that was not touched since it was made, but for its state.
pub record Fresh (h : TaskHandle) : Type 0 where
  pub runs : h.proc_state ≡ task_running
  pub open_ : h.closes ≡ 0

-- And it tells of the task what a new one does.
pub record New (task : NomadTask) (h : TaskHandle) : Type 0 where
  pub fresh : Fresh h
  pub identified : h.id ≡ task.task_id
  pub named : h.name ≡ task.task_name
  pub allocated : h.alloc_id ≡ task.alloc_id
  pub unended : h.completed_at ≡ 0
  pub unjudged : h.exit_result ≡ none

-- A task that runs, and one that is over.
pub record Runs (h : TaskHandle) : Type 0 where
  pub phase : h.state.phase ≡ phase_running
  pub launched : h.process ≡ some h.state.pid
  pub fresh : Fresh h

pub record Over (h : TaskHandle) : Type 0 where
  pub phase : h.state.phase ≡ phase_exited
  pub exited : h.proc_state ≡ task_exited
  pub closed : h.closes ≡ 1
  pub result : ExitResult
  pub told : h.exit_result ≡ some result

-- A task whose process was launched or taken over, and that is as a new one but for this.
pub record Launched (task : NomadTask) (h : TaskHandle) : Type 0 where
  pub runs : Runs h
  pub new : New task h
  pub started : h.handle_started ≡ h.state.started_at

-- The store has a handle with the state that is returned.
pub record Tracked (task : NomadTask) (state : TaskState) (tasks : Tasks) : Type 0 where
  pub handle : TaskHandle
  pub stored : load task.task_id tasks ≡ some handle
  pub same : handle.state ≡ state
  pub phase : Launched task handle ⊎ Over handle

pub run_handle-Tracked :
    (task : NomadTask) (h : TaskHandle) (cfg : TaskConfig) (dir : Text) (pid now : ℕ)
    (tasks : Tasks)
    → New task h
    → load task.task_id tasks ≡ some (run_handle h cfg dir pid now)
    → Tracked task (run_handle h cfg dir pid now).state tasks
unfolding run_handle
run_handle-Tracked task h cfg dir pid now tasks new stored = record {
  handle = run_handle h cfg dir pid now;
  stored = stored;
  same = refl;
  phase = inl (record {
    runs = record {
      phase = refl;
      launched = refl;
      fresh = record { runs = new.fresh.runs; open_ = new.fresh.open_ };
    };
    new = record {
      fresh = record { runs = new.fresh.runs; open_ = new.fresh.open_ };
      identified = new.identified;
      named = new.named;
      allocated = new.allocated;
      unended = new.unended;
      unjudged = new.unjudged;
    };
    started = refl;
  });
}

pub close_done-Tracked :
    (task : NomadTask) (h : TaskHandle) (cfg : TaskConfig) (dir : Text) (now : ℕ) (tasks : Tasks)
    → New task h
    → load task.task_id tasks ≡ some (close_done (over_handle h cfg dir now))
    → Tracked task (over_handle h cfg dir now).state tasks
unfolding close_done over_handle
close_done-Tracked task h cfg dir now tasks new stored = record {
  handle = close_done (over_handle h cfg dir now);
  stored = stored;
  same = refl;
  phase = inr (record {
    phase = refl;
    exited = refl;
    closed = ap suc new.fresh.open_;
    result = _;
    told = refl;
  });
}

-- An instance that was taken over is tracked.
abbrev pub Taken : NomadTask → Option TaskState → Tasks → Type 0
Taken task none tasks = Unit
Taken task (some state) tasks = Tracked task state tasks

module _ {S : Type 0} (host : Host S) (plugin : PluginConfig) (task : NomadTask) where
  adopted_cleanup-New :
      (cfg : TaskConfig) (h : TaskHandle) (s : S)
      → New task h
      → New task (adopted_cleanup host plugin task cfg h s)
  unfolding adopted_cleanup
  adopted_cleanup-New cfg h s new = record {
    fresh = record {
      runs = ground (new.fresh.runs, arith);
      open_ = ground (new.fresh.open_, arith);
    };
    identified = ground (new.identified, arith);
    named = ground (new.named, arith);
    allocated = ground (new.allocated, arith);
    unended = ground (new.unended, arith);
    unjudged = ground (new.unjudged, arith);
  }

  adopt-Tracked :
      (cfg : TaskConfig) (h : TaskHandle) (dir : Text) (root found : ℕ)
      → New task h
      → Triple S (λ _. Unit) (adopt host plugin task cfg h dir root found) (Tracked task)
  unfolding adopt
  adopt-Tracked cfg h dir root found fresh =
      bind-Triple S _ (λ _ _. Unit) _ _ _ (act-Triple S _ _)
        (λ _.
          bind-Triple S _ (λ cleaned _. Unit × New task cleaned) _ _ _
            (read-Triple S _ (New task) _ (λ s. adopted_cleanup-New cfg h s fresh))
            (λ cleaned.
              bind-Triple S _ (λ _ _. Unit × New task cleaned) _ _ _ (on_host-Triple S _ _)
                (λ now.
                  let running = run_handle cleaned cfg dir root now in
                  let Kept : Tasks → Type 0 =
                    λ tasks. (Unit × New task cleaned) × (load task.task_id tasks ≡ some running) in
                  bind-Triple S _ (λ _. Kept) _ _ _ (keep_handle-Triple S _ _ _)
                    (λ _.
                      bind-Triple S _ (λ _. Kept) _ _ _ (on_host-Triple S _ _)
                        (λ _.
                          bind-Triple S _ (λ _. Kept) _ _ _ (act-Triple S _ _)
                            (λ _. pure-Triple S Kept _ running.state (λ tasks ((_, known), stored).
                              run_handle-Tracked task cleaned cfg dir root now tasks known
                                stored)))))))

  adopt_found-Taken :
      (cfg : TaskConfig) (h : TaskHandle) (dir : Text) (found work : List ℕ)
      → New task h
      → Triple S (λ _. Unit) (adopt_found host plugin task cfg h dir found work) (Taken task)
  unfolding adopt_found
  adopt_found-Taken cfg h dir [] work fresh = pure-Triple S _ (Taken task) none (λ tasks h. tt)
  adopt_found-Taken cfg h dir (p ∷ found) [] fresh =
      bind-Triple S _ (λ _ _. Unit) _ _ _ (on_host-Triple S _ _)
        (λ _. pure-Triple S _ (Taken task) none (λ tasks h. tt))
  adopt_found-Taken cfg h dir (p ∷ found) (pid ∷ work) fresh =
      bind-Triple S _ (Tracked task) _ _ _ (adopt-Tracked cfg h dir _ _ fresh)
        (λ state. pure-Triple S _ (Taken task) (some state) (λ tasks tracked. tracked))

  pub adopt_or_reap-Taken :
      (cfg : TaskConfig) (h : TaskHandle) (dir : Text)
      → New task h
      → Triple S (λ _. Unit) (adopt_or_reap host plugin task cfg h dir) (Taken task)
  unfolding adopt_or_reap
  adopt_or_reap-Taken cfg h dir fresh =
      bind-Triple S _ (λ _ _. Unit) _ _ _ (on_host-Triple S _ _)
        (λ found.
          bind-Triple S _ (λ _ _. Unit) _ _ _ (on_host-Triple S _ _)
            (λ work. adopt_found-Taken cfg h dir found work fresh))
