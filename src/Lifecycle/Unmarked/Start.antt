-- ===== src/Lifecycle/Unmarked/Start.antt =====
-- Starts in which steamcmd never tells of a success.
use nomad_driver_steamcmd.Base.{
  ℕ, Option, none, some, List, [], ◌∷◌, Result, ok, err, already_started, ◌≡◌, ◌≢◌, refl,
}
use nomad_driver_steamcmd.Base.Effects.{Effect, pure, ◌>>=◌}
use nomad_driver_steamcmd.Config.{PluginConfig, LaunchConfig}
use nomad_driver_steamcmd.Task.{TaskHandle, TaskState, load}
use nomad_driver_steamcmd.Lifecycle.Host.{NomadTask, Host, Checked, check_task}
use nomad_driver_steamcmd.Lifecycle.Store.{World, on_host, or_delete}
use nomad_driver_steamcmd.Lifecycle.Adopt.{list_marked, adopt_found, adopt_or_reap}
use nomad_driver_steamcmd.Lifecycle.Start.{
  finish_install, launch_task, find_earlier, start_fresh, start_logged, start_checked, start_task,
}
use nomad_driver_steamcmd.Lifecycle.Started.{closing-Triple}
use nomad_driver_steamcmd.Lifecycle.Triple.{
  Triple, bind-Triple, pure-Triple, store-Triple, on_host-Triple, or_delete-Triple, call-Triple,
  read-Triple,
}
use nomad_driver_steamcmd.Lifecycle.Never.{Never, bind-Never, any-Never, absurd_Triple}
use nomad_driver_steamcmd.Lifecycle.Unmarked.{Unmarked, install-Never}

module _ {S : Type 0} (host : Host S) (plugin : PluginConfig) (task : NomadTask)
    (unmarked : Unmarked host plugin task) where
  start_fresh-Never :
      (checked : Checked) (h : TaskHandle) → Never (start_fresh host plugin task checked h)
  unfolding start_fresh
  start_fresh-Never checked h =
      bind-Never _
        (λ _. elim checked.config.launch as (λ _. Effect (World S) TaskState) [
          | none ↦ finish_install host task.task_id checked h
          | some launch ↦ launch_task host plugin task checked launch h
        ])
        (install-Never host plugin task unmarked task.task_id checked)

  abbrev no_pids : List ℕ
  no_pids = []

  nothing_found :
      (checked : Checked) (h : TaskHandle) (work : List ℕ)
      → Triple S
          (λ _. Unit × (no_pids ≡ []))
          (adopt_found host plugin task checked.config h checked.dir [] work)
          (λ earlier _. earlier ≡ none)
  unfolding adopt_found
  nothing_found checked h work =
      pure-Triple S _ (λ earlier _. earlier ≡ none) none (λ tasks known. refl)

  adopt_or_reap-none :
      (checked : Checked) (h : TaskHandle)
      → Triple S
          (λ _. Unit)
          (adopt_or_reap host plugin task checked.config h checked.dir)
          (λ earlier _. earlier ≡ none)
  unfolding adopt_or_reap list_marked
  adopt_or_reap-none checked h =
      bind-Triple S _ (λ found _. Unit × (found ≡ [])) _ _ _
        (read-Triple S _ (λ found. found ≡ []) _ unmarked.lone)
        (λ found.
          bind-Triple S _ (λ _ _. Unit × (found ≡ [])) _ _ _ (on_host-Triple S _ _)
            (λ work. nothing found work))
    where
      nothing :
          (found work : List ℕ)
          → Triple S
              (λ _. Unit × (found ≡ []))
              (adopt_found host plugin task checked.config h checked.dir found work)
              (λ earlier _. earlier ≡ none)
      nothing [] work = nothing_found checked h work
      nothing (p ∷ found) work = absurd_Triple _ _ (λ tasks (_, none_there). cc)

  -- No earlier instance is found.
  find_earlier-none :
      (checked : Checked) (h : TaskHandle)
      → Triple S (λ _. Unit) (find_earlier host plugin task checked h) (λ earlier _. earlier ≡ none)
  unfolding find_earlier
  find_earlier-none checked h = go checked.config.launch
    where
      go :
          (launch : Option LaunchConfig)
          → Triple S
              (λ _. Unit)
              (elim launch as (λ _. Effect (World S) (Option TaskState)) [
                | none ↦ pure none
                | some _ ↦
                    or_delete task.task_id
                      (adopt_or_reap host plugin task checked.config h checked.dir)
              ])
              (λ earlier _. earlier ≡ none)
      go none = pure-Triple S _ (λ earlier _. earlier ≡ none) none (λ tasks h. refl)
      go (some launch) = or_delete-Triple S _ _ task.task_id _ (adopt_or_reap-none checked h)

  start_logged-Never :
      (checked : Checked) (h : TaskHandle) → Never (start_logged host plugin task checked h)
  unfolding start_logged
  start_logged-Never checked h =
      bind-Triple S _ (λ earlier _. earlier ≡ none) _ _ _ (find_earlier-none checked h)
        (λ earlier. go earlier)
    where
      go :
          (earlier : Option TaskState)
          → Triple S
              (λ _. earlier ≡ none)
              (elim earlier as (λ _. Effect (World S) TaskState) [
                | some state ↦ pure state
                | none ↦ start_fresh host plugin task checked h
              ])
              (λ _ _. ⊥)
      go (some state) = absurd_Triple _ _ (λ tasks known. cc)
      go none = any-Never _ _ (start_fresh-Never checked h)

  start_checked-Never : (checked : Checked) → Never (start_checked host plugin task checked)
  unfolding start_checked
  start_checked-Never checked =
      bind-Triple S _ (λ _ _. Unit) _ _ _ (on_host-Triple S _ _)
        (λ now.
          bind-Triple S _ (λ _ _. Unit) _ _ _ (store-Triple S Unit _ _)
            (λ _.
              bind-Triple S _ (λ _ _. Unit) _ _ _ (call-Triple S _ task.task_id _)
                (λ files.
                  closing-Triple host plugin task _ _ files _ (start_logged-Never checked _))))

  begun-Never : Never (on_host (check_task host task) >>= start_checked host plugin task)
  begun-Never =
      bind-Triple S _ (λ _ _. Unit) _ (on_host (check_task host task)) _ (on_host-Triple S _ _)
        start_checked-Never

  -- A start does not succeed unless steamcmd told of a success, the app was installed already, or an
  -- instance of the task was running: if no line that is read has the success marker in any run, the
  -- app is nowhere installed and no process has the marker of the task, then StartTask fails.
  pub start_task-Unmarked :
      (w : World S) (state : TaskState) → (start_task host plugin task w).1 ≢ ok state
  unfolding start_task Triple
  start_task-Unmarked w state = go (load task.task_id w.1)
    where
      go :
          (o : Option TaskHandle)
          → (elim o as (λ _. World S × Result TaskState) [
            | some _ ↦ (w, err (already_started task.task_id))
            | none ↦ (on_host (check_task host task) >>= start_checked host plugin task) w
          ]).1
            ≢ ok state
      go (some h) = λ e. cc
      go none = begun-Never w tt state
