-- ===== src/Lifecycle/Host.antt =====
-- driver/lifecycle.go and driver/proton.go: what a start checks and prepares on the machine before
-- it launches anything.
use nomad_driver_steamcmd.Base.{
  ℕ, zero, suc, ltb, nat_eq, Text, bytes, text_eq, ◌==◌, ◌*◌, ◌%◌, ◌^◌, ℤ, pos, negsuc, Bool,
  Option, none, some, List, [], ◌∷◌, if◌then◌else◌, Result, ok, err, Error, invalid_timeout,
  bad_timeout, decoding, creating_install_dir, no_space, proton_script_missing, creating_compat_dir,
}
use nomad_driver_steamcmd.Base.Effects.{Effect, pure, lift, wrap, ◌>>=◌, ◌>>◌}
use nomad_driver_steamcmd.FilePath.{is_abs, join}
use nomad_driver_steamcmd.Config.{TaskConfig}
use nomad_driver_steamcmd.Mounts.{Os, MountConfig, setup_mounts}
use nomad_driver_steamcmd.Stage.{StageOs}
use nomad_driver_steamcmd.Launch.{WindowsRuntime, proton_script, is_file}
use nomad_driver_steamcmd.Steamcmd.Install.{Timing, ProcessEnd}
use nomad_driver_steamcmd.Process.Members.{ProcDir}
use nomad_driver_steamcmd.Process.Terminate.{Procs}
use nomad_driver_steamcmd.LogFollow.{FileInfo}
use nomad_driver_steamcmd.Task.{TaskState}

-- What Nomad hands to `StartTask`. `driver_config` is what `DecodeDriverConfig` returns.
pub record NomadTask : Type 0 where
  pub task_id : Text
  pub task_name : Text
  pub alloc_id : Text
  pub task_dir : Text
  pub mounts : List (Option MountConfig)
  pub task_env : List (Text × Text)
  pub stdout_path : Text
  pub stderr_path : Text
  pub driver_config : Result TaskConfig

-- The messages of the task events.
pub data Message : Type 0 where
  skipping : Message
  installing : Message
  progress : Text → Message
  repaired : Text → Message
  failed : Error → Message
  installed : Text → Message
  launched : Text → ℕ → Message
  cleaning : ℕ → Message
  readopted : ℕ → Message
  following : ℕ → Message

-- A run of steamcmd, as `run_install` is given it.
pub record SteamcmdRun : Type 0 where
  pub timing : Timing
  pub output : Text
  pub ending : ProcessEnd

-- A command to launch.
pub record Command : Type 0 where
  pub path : Text
  pub arguments : List Text
  pub folder : Text
  pub environment : List Text

-- The calls of the operating system, of Nomad and of other parts of the driver, over a state `S` of
-- the machine. An open file is a number. `acquire` and `release` are those of an install slot;
-- `steamcmd` runs it with its arguments under a timeout, in which `timed_out` tells whether the time is
-- up; `tree` lists a process with its descendants; `set_state` is `SetDriverState`.
pub record Host (S : Type 0) : Type 0 where
  pub os : Os S
  pub stage_os : StageOs S
  pub procs : Procs S
  pub proc_dir : S → ProcDir
  pub self : ℕ
  pub tree : S → ℕ → Option (List ℕ)
  pub parse_duration : Text → Result ℤ
  pub statfs : Text → S → Result (ℕ × ℕ)
  pub stat : S → Text → Option Bool
  pub file_info : S → Text → Option FileInfo
  pub read_file : S → Text → Result Text
  pub home : S → Text
  pub environ : S → List Text
  pub open_log : Text → Effect S ℕ
  pub close_log : ℕ → S → S
  pub emit : Message → S → S
  pub acquire : ℕ → S → S
  pub release : S → S
  pub steamcmd : Text → List Text → ℕ → S → S × SteamcmdRun
  pub timed_out : ℕ → S → Bool
  pub remove_file : Text → S → S × Option Error
  pub launch : Command → Effect S ℕ
  pub kill : ℕ → S → S
  pub set_state : TaskState → Effect S (Unit {0})
  pub follow : List Text → List (Text × FileInfo) → ℕ → S → S

-- A duration must be positive.
unfoldable pub positive_timeout : Text → ℤ → Result ℕ
positive_timeout s (pos zero) = err (invalid_timeout s)
positive_timeout s (pos (suc n)) = ok (suc n)
positive_timeout s (negsuc n) = err (invalid_timeout s)

-- `parseInstallTimeout`; `parse_duration` is `time.ParseDuration`.
unfoldable pub parse_install_timeout : (Text → Result ℤ) → Text → Result ℕ
unfolding positive_timeout
parse_install_timeout parse_duration s =
    if s == []
    then ok 0
    else elim (parse_duration s) [ err e ↦ err (bad_timeout s e) | ok d ↦ positive_timeout s d ]

-- `minFreeBytes`
abbrev pub min_free_bytes : ℕ
min_free_bytes = 512 * 1024 * 1024

-- The product of `statfsFree`, in 64 bits.
unfoldable pub free_bytes : ℕ × ℕ → ℕ
free_bytes (available, block) = available * block % 2 ^ 64

-- An install directory that is not given.
unfoldable pub with_install_dir : TaskConfig → TaskConfig
with_install_dir cfg =
    if cfg.install_dir == [] then record cfg { install_dir = bytes "local/steamapp" } else cfg

unfoldable pub absolute_dir : Text → Text → Text
absolute_dir task_dir dir = if is_abs dir then dir else join (task_dir ∷ dir ∷ [])

-- What a start goes on with once it has checked its configuration.
pub record Checked : Type 0 where
  pub config : TaskConfig
  pub timeout : ℕ
  pub dir : Text

module _ {S : Type 0} (host : Host S) where
  -- The check of the free space, which counts only if the space can be told.
  unfoldable pub enough_space : Text → Effect S (Unit {0})
  unfolding free_bytes
  enough_space dir s = elim (host.statfs dir s) [
    | err _ ↦ (s, ok tt)
    | ok blocks ↦
        if ltb (free_bytes blocks) min_free_bytes
        then (s, err (no_space dir (free_bytes blocks)))
        else (s, ok tt)
  ]

  unfoldable pub mount_volumes : NomadTask → Effect S (Unit {0})
  mount_volumes task s =
      let (t, _, failure) = setup_mounts host.os task.task_dir task.mounts [] s in
      elim failure [ none ↦ (t, ok tt) | some e ↦ (t, err e) ]

  -- `StartTask` up to the handle.
  unfoldable pub check_task : NomadTask → Effect S Checked
  unfolding with_install_dir absolute_dir mount_volumes enough_space parse_install_timeout
  check_task task = do
    decoded ← wrap decoding (lift task.driver_config)
    let cfg = with_install_dir decoded
    timeout ← lift (parse_install_timeout host.parse_duration cfg.install_timeout)
    mount_volumes task
    let dir = absolute_dir task.task_dir cfg.install_dir
    wrap (creating_install_dir dir) (host.os.mkdir_all dir)
    enough_space dir
    pure (record { config = cfg; timeout = timeout; dir = dir })

  -- `taskLogFiles`: the files for stdout and stderr.
  unfoldable pub task_log_files : NomadTask → Effect S (ℕ × ℕ)
  task_log_files task s =
      let (t, out) = host.open_log task.stdout_path s in
      let (u, errors) = host.open_log task.stderr_path t in
      elim out [
        | err e ↦ (t, err e)
        | ok so ↦ elim errors [ ok se ↦ (u, ok (so, se)) | err e ↦ (host.close_log so u, err e) ]
      ]

  unfoldable pub close_logs : ℕ × ℕ → S → S
  close_logs files s = host.close_log files.1 (host.close_log files.0 s)

  -- `prepare`
  unfoldable pub prepare : WindowsRuntime → Effect S (Unit {0})
  unfolding is_file proton_script
  prepare w s =
      let script = proton_script w.proton_path in
      if is_file (host.stat s) script
      then wrap (creating_compat_dir w.compat_data_path) (host.os.mkdir_all w.compat_data_path) s
      else (s, err (proton_script_missing script))
