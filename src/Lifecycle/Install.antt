-- ===== src/Lifecycle/Install.antt =====
-- driver/lifecycle.go: how a start installs the app.
use nomad_driver_steamcmd.Base.{
  ℕ, Text, text_eq, Bool, true, false, not, ◌&&◌, Option, none, some, List, [], ◌∷◌, map, reverse,
  if◌then◌else◌, Result, ok, err,
}
use nomad_driver_steamcmd.Base.Effects.{Effect, lift, ◌>>=◌}
use nomad_driver_steamcmd.Config.{PluginConfig, resolve_login, task_login, default_login}
use nomad_driver_steamcmd.Launch.{app_installed}
use nomad_driver_steamcmd.Steamcmd.Args.{build_args}
use nomad_driver_steamcmd.Steamcmd.Install.{InstallResult, run_install}
use nomad_driver_steamcmd.Steamcmd.Repair.{Outcome, Hooks, install_with_repair}
use nomad_driver_steamcmd.Lifecycle.Host.{
  Host, Checked, skipping, installing, progress, repaired, failed, installed,
}
use nomad_driver_steamcmd.Lifecycle.Store.{World, on_host, act, or_delete}

-- The message of a result.
unfoldable pub result_message : Option InstallResult → Text
result_message none = []
result_message (some r) = r.message

unfoldable pub outcome_of : Outcome → Result Text
unfolding result_message
outcome_of (result, some e) = err e
outcome_of (result, none) = ok (result_message result)

module _ {S : Type 0} (host : Host S) where
  unfoldable pub emit_all : List Text → S → S
  emit_all [] s = s
  emit_all (text ∷ texts) s = emit_all texts (host.emit (progress text) s)

  -- One run of steamcmd, with the messages of its progress.
  unfoldable pub run_once : PluginConfig → List Text → ℕ → S → S × Outcome
  unfolding run_install emit_all
  run_once plugin args timeout s =
      let (t, run) = host.steamcmd plugin.steamcmd_path args timeout s in
      let done = run_install true run.timing run.output run.ending in
      (emit_all (map (λ note. note.1) (reverse done.reported)) t, (some done.result, done.failure))

  unfoldable pub repair_hooks : PluginConfig → List Text → ℕ → Hooks S
  unfolding run_once
  repair_hooks plugin args timeout = record {
    run = run_once plugin args timeout;
    done = host.timed_out timeout;
    remove = host.remove_file;
    on_repair = λ removed. host.emit (repaired removed);
  }

  -- An install in its slot.
  unfoldable pub install_in_slot : PluginConfig → Checked → List Text → Effect S Text
  unfolding repair_hooks install_with_repair outcome_of
  install_in_slot plugin checked args s =
      let cfg = checked.config in
      let (t, out) =
        install_with_repair (repair_hooks plugin args checked.timeout) cfg.repair_manifest
          checked.dir cfg.app_id (host.emit installing (host.acquire checked.timeout s)) in
      (host.release t, outcome_of out)

  -- An error is told in an event.
  unfoldable pub or_tell : {A : Type 0} → Effect (World S) A → Effect (World S) A
  or_tell m w =
      let (v, r) = m w in
      elim r [ ok a ↦ (v, ok a) | err e ↦ ((host.emit (failed e) v.0, v.1), err e) ]

  unfoldable pub may_skip : Checked → S → Bool
  unfolding app_installed
  may_skip checked s =
      let cfg = checked.config in
      let there = app_installed (host.read_file s) checked.dir cfg.app_id in
      not cfg.update_on_start && elim cfg.launch [ some _ ↦ there | none ↦ false ]

  unfoldable pub run_steamcmd : PluginConfig → Text → Checked → Effect (World S) (Unit {0})
  unfolding build_args resolve_login task_login default_login install_in_slot or_tell
  run_steamcmd plugin id checked = do
    let cfg = checked.config
    let login = resolve_login (task_login cfg) (default_login plugin)
    args ←
        or_delete id (on_host (λ s. lift (build_args (host.read_file s) cfg login checked.dir) s))
    message ← or_tell (or_delete id (on_host (install_in_slot plugin checked args)))
    act (host.emit (installed message))

  -- The install, unless it is skipped.
  unfoldable pub install : PluginConfig → Text → Checked → Effect (World S) (Unit {0})
  unfolding may_skip run_steamcmd
  install plugin id checked w =
      if may_skip checked w.0 then act (host.emit skipping) w else run_steamcmd plugin id checked w
