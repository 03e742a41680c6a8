-- ===== src/Launch.antt =====
-- driver/lifecycle.go and driver/proton.go: what is launched, through which Windows runtime, which
-- signal a text means, and whether an app is already installed.
pub mod Command
pub mod Signal
pub mod Runtime
use nomad_driver_steamcmd.Base.{
  ℕ, zero, suc, ltb, leb, nat_eq, Text, bytes, text_eq, contains_byte, ℤ, pos, negsuc, read_digits,
  ◌==◌, Bool, true, false, not, ◌&&◌, ◌||◌, Option, none, some, List, [], ◌∷◌, ◌++◌, if◌then◌else◌,
  ◌+◌, ◌/◌, ◌%◌, ◌^◌, Result, ok, err, ◌>>=◌, Error, unsupported_signal, proton_path_missing,
  proton_path_relative, proton_script_missing, creating_compat_dir,
}
use nomad_driver_steamcmd.Regexp.{find_submatch, submatch}
use nomad_driver_steamcmd.FilePath.{slash, is_abs, join, base, dir}
use nomad_driver_steamcmd.Config.{PluginConfig, TaskConfig, LaunchConfig}
use nomad_driver_steamcmd.Steamcmd.Patterns.{is_app_id, re_state_flags}
use nomad_driver_steamcmd.Steamcmd.Repair.{manifest_path}

-- `windowsRuntime`
pub record WindowsRuntime : Type 0 where
  pub proton_path : Text
  pub compat_data_path : Text
  pub client_path : Text

unfoldable pub proton_script : Text → Text
proton_script p = if base p == bytes "proton" then p else join (p ∷ bytes "proton" ∷ [])

unfoldable pub executable : WindowsRuntime → Text × List Text
unfolding proton_script
executable w = (proton_script w.proton_path, bytes "run" ∷ [])

unfoldable pub runtime_env : WindowsRuntime → Text → Text → List Text
runtime_env w app_id install_dir =
    (bytes "STEAM_COMPAT_DATA_PATH=" ++ w.compat_data_path)
    ∷ (bytes "STEAM_COMPAT_CLIENT_INSTALL_PATH=" ++ w.client_path)
    ∷ (bytes "STEAM_COMPAT_INSTALL_PATH=" ++ install_dir)
    ∷ (if app_id == []
        then []
        else (bytes "SteamAppId=" ++ app_id) ∷ (bytes "SteamGameId=" ++ app_id) ∷ [])

-- What `os.Stat` tells: whether something is there, and whether it is a directory.
module _ (stat : Text → Option Bool) where
  unfoldable pub is_dir : Text → Bool
  is_dir path = elim (stat path) [ some directory ↦ directory | none ↦ false ]

  unfoldable pub is_file : Text → Bool
  is_file path = elim (stat path) [ some directory ↦ not directory | none ↦ false ]

  unfoldable pub default_steam_client_path : Text → Text → Text
  unfolding is_dir
  default_steam_client_path home fallback =
      let c = join (home ∷ bytes ".steam" ∷ bytes "steam" ∷ []) in
      if not (home == []) && is_dir c then c else fallback

  unfoldable pub resolve_windows_runtime :
      TaskConfig → PluginConfig → Text → Text → Result WindowsRuntime
  unfolding default_steam_client_path
  resolve_windows_runtime task plugin task_root home =
      let proton =
        if task.proton_path == [] then plugin.default_proton_path else task.proton_path in
      let wanted =
        if task.compat_data_path == [] then bytes "local/compat" else task.compat_data_path in
      let compat = if is_abs wanted then wanted else join (task_root ∷ wanted ∷ []) in
      let client =
        if task.compat_client_path == []
        then default_steam_client_path home compat
        else task.compat_client_path in
      if proton == []
      then err proton_path_missing
      else if is_abs proton
      then ok (record { proton_path = proton; compat_data_path = compat; client_path = client })
      else err (proton_path_relative proton)

  -- The first place with a wineserver; the empty text if there is none.
  unfoldable pub proton_wineserver : Text → Text
  unfolding is_file
  proton_wineserver p =
      let folder = if base p == bytes "proton" then dir p else p in
      let files = join (folder ∷ bytes "files/bin/wineserver" ∷ []) in
      let dist = join (folder ∷ bytes "dist/bin/wineserver" ∷ []) in
      if is_file files then files else if is_file dist then dist else []

  -- `wineCleanup`: the wineserver and its environment.
  unfoldable pub cleanup : WindowsRuntime → Option (Text × List Text)
  unfolding proton_wineserver
  cleanup w =
      let bin = proton_wineserver w.proton_path in
      if bin == []
      then none
      else some (bin, (bytes "WINEPREFIX=" ++ join (w.compat_data_path ∷ bytes "pfx" ∷ [])) ∷ [])

-- `buildLaunchCommand`, for a task with the launch block `launch`.
unfoldable pub build_launch_command : TaskConfig → LaunchConfig → WindowsRuntime → Text × List Text
unfolding executable
build_launch_command cfg launch rt =
    let (run_exe, run_pre) = executable rt in
    let args = run_pre ++ (launch.command ∷ launch.args) in
    if not (cfg.platform == bytes "windows")
    then (launch.command, launch.args)
    else if cfg.windows_display
    then (bytes "xvfb-run", bytes "--auto-servernum" ∷ run_exe ∷ args)
    else (run_exe, args)

-- `resolveLaunchPath`
unfoldable pub resolve_launch_path : Text → Text → Text
resolve_launch_path command install_dir =
    if contains_byte command slash && not (is_abs command)
    then join (install_dir ∷ command ∷ [])
    else command

-- `strconv.Atoi`, whose numbers have 64 bits.
unfoldable pub magnitude : ℕ → Text → Option ℕ
magnitude bound [] = none
magnitude bound s = elim (read_digits 0 s) [
  | some n ↦ if ltb n bound then some n else none
  | none ↦ none
]

unfoldable pub negated : ℕ → ℤ
negated zero = pos zero
negated (suc n) = negsuc n

unfoldable pub atoi : Text → Option ℤ
unfolding magnitude negated
atoi [] = none
atoi (b ∷ s) =
    if b == b'-'
    then elim (magnitude (2 ^ 63 + 1) s) [ some n ↦ some (negated n) | none ↦ none ]
    else let n = (if b == b'+' then magnitude (2 ^ 63) s else magnitude (2 ^ 63) (b ∷ s)) in
      elim n [ some n ↦ some (pos n) | none ↦ none ]

-- The signals that have names, with their numbers on Linux.
unfoldable pub named_signal : Text → Option ℕ
named_signal s =
    if s == bytes "SIGTERM" || s == bytes "TERM"
    then some 15
    else if s == bytes "SIGKILL" || s == bytes "KILL"
    then some 9
    else if s == bytes "SIGINT" || s == bytes "INT"
    then some 2
    else if s == bytes "SIGHUP" || s == bytes "HUP"
    then some 1
    else if s == bytes "SIGQUIT" || s == bytes "QUIT"
    then some 3
    else if s == bytes "SIGUSR1" || s == bytes "USR1"
    then some 10
    else if s == bytes "SIGUSR2" || s == bytes "USR2"
    then some 12
    else none

-- `parseSignal`
unfoldable pub parse_signal : Text → Result ℤ
unfolding named_signal atoi
parse_signal s = elim (named_signal s) [
  | some n ↦ ok (pos n)
  | none ↦ elim (atoi s) [ some n ↦ ok n | none ↦ err (unsupported_signal s) ]
]

-- `appInstalled`; bit 2 of the flags of a manifest says that the app is fully installed.
unfoldable pub fully_installed : Text → Bool
fully_installed flags = elim (magnitude (2 ^ 32) flags) [ some n ↦ n / 4 % 2 == 1 | none ↦ false ]

unfoldable pub app_installed : (Text → Result Text) → Text → Text → Bool
unfolding fully_installed
app_installed read_file install_dir app_id =
    if is_app_id app_id
    then elim (read_file (manifest_path install_dir app_id)) [
      | err e ↦ false
      | ok b ↦ elim (find_submatch re_state_flags b) [
        | some m ↦ fully_installed (submatch 1 m)
        | none ↦ false
      ]
    ]
    else false
