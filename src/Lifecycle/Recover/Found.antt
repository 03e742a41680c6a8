-- ===== src/Lifecycle/Recover/Found.antt =====
-- What a recovery finds.
use nomad_driver_steamcmd.Base.{
  err, decoding_state, ℕ, suc, nat_eq, ◌==◌, Text, text_beq_iff, false, Option, none, some, List,
  [], ◌∷◌, Result, ok, ◌≡◌, refl, ap, sym, subst, ◌∙◌,
}
use nomad_driver_steamcmd.Base.Effects.{wrap, lift, ◌>>=◌}
use nomad_driver_steamcmd.Task.{
  TaskHandle, TaskState, Tasks, put, phase_running, load, new_task_handle, set_phase,
}
use nomad_driver_steamcmd.Lifecycle.Host.{NomadTask, Host}
use nomad_driver_steamcmd.Lifecycle.Store.{World, act, keep_handle, on_host}
use nomad_driver_steamcmd.Lifecycle.Restores.{load-put}
use nomad_driver_steamcmd.Lifecycle.Start.{close_done}
use nomad_driver_steamcmd.Lifecycle.Tracked.{Fresh, Runs, Over}
use nomad_driver_steamcmd.Lifecycle.Recover.{
  KeptHandle, Watch, watched, unwatched, lost_handle, readopted_handle, live_of, recover_found,
  recover_running, recover_phase, recover_state, recover_task,
}

-- The outcome for a task of which these processes are alive.
pub data Found (id : Text) (state : TaskState) (out : Tasks × Result Watch) : List ℕ → Type 0 where
  alive :
      (pid : ℕ) (pids : List ℕ) (h : TaskHandle)
      → load id out.0 ≡ some h
      → Runs h
      → h.state ≡ state
      → out.1 ≡ ok watched
      → Found id state out (pid ∷ pids)
  dead :
      (h : TaskHandle)
      → load id out.0 ≡ some h
      → Over h
      → out.1 ≡ ok unwatched
      → Found id state out []

module _ {S : Type 0} (host : Host S) (kept : KeptHandle) where
  abbrev pub task : NomadTask
  task = kept.task

  abbrev outcome : World S × Result Watch → Tasks × Result Watch
  outcome r = (r.0.1, r.1)

  pub load-kept :
      (h : TaskHandle) (tasks : Tasks) → load task.task_id (put task.task_id h tasks) ≡ some h
  load-kept h tasks =
      load-put task.task_id task.task_id h tasks
      ∙ rw ((text_beq_iff task.task_id task.task_id).1 refl) refl

  recover_found-Found :
      (live : List ℕ) (now : ℕ) (state : TaskState) (h : TaskHandle) (w : World S)
      → Fresh h
      → state.phase ≡ phase_running
      → h.state ≡ state
      → Found task.task_id state (outcome (recover_found host live now task state h w)) live
  unfolding recover_found keep_handle act lost_handle readopted_handle set_phase close_done
  recover_found-Found [] now state h w fresh phase e =
      dead _ (load-kept _ w.1)
        (record {
          phase = refl;
          exited = refl;
          closed = ap suc fresh.open_;
          result = _;
          told = refl;
        })
        refl
  recover_found-Found (pid ∷ pids) now state h w fresh phase e =
      alive pid pids _ (load-kept _ w.1)
        (record {
          phase = ap (λ s. s.phase) e ∙ phase;
          launched = refl;
          fresh = record { runs = fresh.runs; open_ = fresh.open_ };
        })
        e refl

  -- The handle of a recovery.
  abbrev pub made : TaskState → S → TaskHandle
  made state s =
      record (new_task_handle task.task_id task.task_name task.alloc_id (host.procs.now s)) {
        state = state;
      }

  made-Fresh : (state : TaskState) (s : S) → Fresh (made state s)
  unfolding new_task_handle
  made-Fresh state s = record { runs = refl; open_ = refl }

  -- The branches of a recovery.
  abbrev pub by_store : World S → Option TaskHandle → World S × Result Watch
  by_store w (some _) = (w, ok unwatched)
  by_store w none = recover_state host kept w

  abbrev pub by_state : World S → Result TaskState → World S × Result Watch
  by_state w (ok state) = recover_phase host state.phase task state (made state w.0) w
  by_state w (err e) = (w, err (decoding_state e))

  pub by_store_lem :
      (w : World S) → recover_task host (some kept) w ≡ by_store w (load task.task_id w.1)
  unfolding recover_task
  by_store_lem w = refl

  pub by_state_lem : (w : World S) → recover_state host kept w ≡ by_state w kept.driver_state
  unfolding recover_state on_host
  by_state_lem w = go kept.driver_state
    where
      go :
          (r : Result TaskState)
          → (wrap decoding_state (lift r) >>= λ state.
                on_host (λ s. (s, ok (host.procs.now s))) >>= λ now.
                recover_phase host state.phase task state
                  (record (new_task_handle task.task_id task.task_name task.alloc_id now) {
                    state = state;
                  }))
              w
            ≡ by_state w r
      go (ok state) = refl
      go (err e) = refl

  running_lem :
      (state : TaskState) (h : TaskHandle) (w : World S)
      → (state.pid == 0) ≡ false
      → recover_phase host phase_running task state h w
        ≡ recover_found host (live_of host task state.pid w.0) (host.procs.now w.0) task state h w
  unfolding recover_phase recover_running
  running_lem state h w pid = rw pid refl

  pub recover_task-running :
      (state : TaskState) (w : World S)
      → load task.task_id w.1 ≡ none
      → kept.driver_state ≡ ok state
      → state.phase ≡ phase_running
      → (state.pid == 0) ≡ false
      → recover_task host (some kept) w
        ≡ recover_found host
            (live_of host task state.pid w.0)
            (host.procs.now w.0)
            task
            state
            (made state w.0)
            w
  recover_task-running state w free told phase pid =
      by_store_lem w
      ∙ ap (by_store w) free
      ∙ by_state_lem w
      ∙ ap (by_state w) told
      ∙ ap (λ p. recover_phase host p task state (made state w.0) w) phase
      ∙ running_lem state (made state w.0) w pid

  -- A task that is not tracked, and whose process ran when its handle was kept, is recovered with the
  -- kept state and watched if any of its processes is alive, and otherwise is over with a result.
  pub recover_task-Found :
      (state : TaskState) (w : World S)
      → load task.task_id w.1 ≡ none
      → kept.driver_state ≡ ok state
      → state.phase ≡ phase_running
      → (state.pid == 0) ≡ false
      → Found task.task_id state
          (outcome (recover_task host (some kept) w))
          (live_of host task state.pid w.0)
  recover_task-Found state w free told phase pid =
      subst (λ r. Found task.task_id state (outcome r) (live_of host task state.pid w.0))
        (sym (recover_task-running state w free told phase pid))
        (recover_found-Found (live_of host task state.pid w.0) (host.procs.now w.0) state
          (made state w.0) w (made-Fresh state w.0) phase refl)
