-- ===== src/Lifecycle/Unmarked.antt =====
-- Installs in which steamcmd never tells of a success.
pub mod Start
use nomad_driver_steamcmd.Base.{
  ℕ, Text, any, Bool, Bool-cases, true, false, not, ◌&&◌, ◌||◌, Option, none, some, List, [], ◌∷◌,
  if◌then◌else◌, Result, ok, err, Error, already_started, ◌≡◌, ◌≢◌, ◌⊎◌, refl, ap, sym, subst, ◌∙◌,
  arith, inl, inr,
}
use nomad_driver_steamcmd.Base.Effects.{Effect, pure, ◌>>=◌}
use nomad_driver_steamcmd.Config.{PluginConfig, LaunchConfig, TaskConfig}
use nomad_driver_steamcmd.Launch.{app_installed}
use nomad_driver_steamcmd.Process.Members.{find_marked}
use nomad_driver_steamcmd.Steamcmd.Install.{ProcessEnd, not_started, exited, Timing, run_install}
use nomad_driver_steamcmd.Steamcmd.Install.Verdict.{
  is_success, is_auth_failure, lines_of, run_install-failure,
}
use nomad_driver_steamcmd.Steamcmd.Repair.{
  Hooks, Outcome, succeeded, noted, is_stale_result, retry, install_with_repair, manifest_path,
}
use nomad_driver_steamcmd.Task.{TaskHandle, Tasks, TaskState, load, new_task_handle}
use nomad_driver_steamcmd.Lifecycle.Host.{
  NomadTask, Host, Checked, SteamcmdRun, check_task, failed, installing, installed,
}
use nomad_driver_steamcmd.Lifecycle.Store.{World, on_host, act, or_delete}
use nomad_driver_steamcmd.Lifecycle.Adopt.{marker_of, list_marked, adopt_found, adopt_or_reap}
use nomad_driver_steamcmd.Lifecycle.Install.{
  outcome_of, run_once, repair_hooks, install_in_slot, or_tell, may_skip, run_steamcmd, install,
}
use nomad_driver_steamcmd.Lifecycle.Start.{
  finish_install, launch_task, find_earlier, start_fresh, start_logged, closing, start_checked,
  start_task,
}
use nomad_driver_steamcmd.Lifecycle.Started.{closing-Triple}
use nomad_driver_steamcmd.Lifecycle.Triple.{
  Triple, bind-Triple, pure-Triple, store-Triple, any-Triple, act-Triple, on_host-Triple,
  or_delete-Triple, call-Triple, read-Triple,
}
use nomad_driver_steamcmd.Lifecycle.Never.{
  Never, bind-Never, on_host-Never, any-Never, absurd_Triple,
}

-- A run with no success marker in the lines that are read.
abbrev pub IsUnmarked : SteamcmdRun → Type 0
IsUnmarked run = any is_success (lines_of run.timing run.output) ≡ false

neither :
    (a b : Bool) (e e' : Error)
    → a ≡ false
    → succeeded (if a then none else if b then some e else some e') ≡ false
neither a true e e' h = rw h refl
neither a false e e' h = rw h refl

run_install-IsUnmarked :
    (reports : Bool) (run : SteamcmdRun)
    → IsUnmarked run
    → succeeded (run_install reports run.timing run.output run.ending).failure ≡ false
unfolding run_install
run_install-IsUnmarked reports run unmarked = go run.ending
  where
    go :
        (ending : ProcessEnd)
        → succeeded (run_install reports run.timing run.output ending).failure ≡ false
    go (not_started e) = refl
    go (exited code run_err) =
        ap succeeded (run_install-failure reports run.timing run.output code run_err)
        ∙ neither _ _ _ _ unmarked

noted-fails :
    (manifest : Text) (failure : Option Error)
    → succeeded failure ≡ false
    → succeeded (noted manifest failure) ≡ false
noted-fails manifest none h = h
noted-fails manifest (some e) h = refl

-- A repair does not make up for runs that fail.
install_with_repair-fails :
    {S : Type 0} (hooks : Hooks S) (repair : Bool) (dir app_id : Text) (s : S)
    → ((t : S) → succeeded (hooks.run t).1.1 ≡ false)
    → succeeded (install_with_repair hooks repair dir app_id s).1.1 ≡ false
unfolding install_with_repair retry
install_with_repair-fails hooks repair dir app_id s fails =
    let first = hooks.run s in
    let manifest = manifest_path dir app_id in
    let removed = hooks.remove manifest first.0 in
    let second = hooks.run (hooks.on_repair manifest removed.0) in
    ground
      (arith, fails s, noted-fails manifest second.1.1 (fails (hooks.on_repair manifest removed.0)))

outcome_of-fails :
    (out : Outcome) (message : Text) → succeeded out.1 ≡ false → outcome_of out ≢ ok message
unfolding outcome_of
outcome_of-fails (result, none) message h = λ e. let clash : true ≡ false = h in cc
outcome_of-fails (result, some e) message h = λ k. cc

module _ {S : Type 0} (host : Host S) (plugin : PluginConfig) (task : NomadTask) where
  -- steamcmd never tells of a success, the app is nowhere installed, and no process has the marker of
  -- the task.
  pub record Unmarked : Type 0 where
    pub runs :
        (program : Text) (args : List Text) (timeout : ℕ) (s : S)
        → IsUnmarked (host.steamcmd program args timeout s).1
    pub absent : (dir app_id : Text) (s : S) → app_installed (host.read_file s) dir app_id ≡ false
    pub lone : (s : S) → find_marked (host.proc_dir s) (marker_of task) host.self ≡ []

  abbrev told : {A : Type 0} → World S → Result A → World S × Result A
  told v (ok a) = (v, ok a)
  told v (err e) = ((host.emit (failed e) v.0, v.1), err e)

  or_tell-Never : {A : Type 0} (m : Effect (World S) A) → Never m → Never (or_tell host m)
  unfolding Triple or_tell
  or_tell-Never {A} m never w h a = go (m w).1 refl
    where
      go : (r : Result A) → (m w).1 ≡ r → (told (m w).0 r).1 ≡ ok a → ⊥
      go (ok b) q e = never w h b q
      go (err x) q e = cc

  module _ (unmarked : Unmarked) where
    run_once-fails :
        (args : List Text) (timeout : ℕ) (s : S)
        → succeeded (run_once host plugin args timeout s).1.1 ≡ false
    unfolding run_once
    run_once-fails args timeout s =
        run_install-IsUnmarked true (host.steamcmd plugin.steamcmd_path args timeout s).1
          (unmarked.runs plugin.steamcmd_path args timeout s)

    install_in_slot-fails :
        (checked : Checked) (args : List Text) (s : S) (message : Text)
        → (install_in_slot host plugin checked args s).1 ≢ ok message
    unfolding install_in_slot repair_hooks
    install_in_slot-fails checked args s message =
        let hooks = repair_hooks host plugin args checked.timeout in
        let repair = checked.config.repair_manifest in
        let before = host.emit installing (host.acquire checked.timeout s) in
        outcome_of-fails
          (install_with_repair hooks repair checked.dir checked.config.app_id before).1 message
          (install_with_repair-fails hooks repair checked.dir checked.config.app_id before
            (run_once-fails args checked.timeout))

    run_steamcmd-Never :
        (id : Text) (checked : Checked) → Never (run_steamcmd host plugin id checked)
    unfolding run_steamcmd
    run_steamcmd-Never id checked =
        bind-Triple S _ (λ _ _. Unit) _ _ _ (call-Triple S _ id _)
          (λ args.
            bind-Never _ (λ message. act (host.emit (installed message)))
              (or_tell-Never _ (
                or_delete-Triple S _ _ id _
                  (on_host-Never _ (install_in_slot-fails checked args)))))

    may_skip-absent : (checked : Checked) (s : S) → may_skip host checked s ≡ false
    unfolding may_skip
    may_skip-absent checked s = ground (arith, unmarked.absent checked.dir checked.config.app_id s)

    pub install-Never : (id : Text) (checked : Checked) → Never (install host plugin id checked)
    unfolding install Triple
    install-Never id checked w =
        rw (may_skip-absent checked w.0, install) (run_steamcmd-Never id checked w)
