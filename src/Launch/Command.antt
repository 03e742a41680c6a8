-- ===== src/Launch/Command.antt =====
-- The command that is launched.
use mathlib.Core.Bool.{false≢true}
use nomad_driver_steamcmd.Base.{
  nat_eq, Text, bytes, text_eq, contains_byte, ◌==◌, Bool-cases, true, false, List, [], ◌∷◌, ◌++◌,
  if◌then◌else◌, ◌≡◌, refl, sym, ◌∙◌, arith, inl, inr,
}
use nomad_driver_steamcmd.FilePath.{slash, is_abs}
use nomad_driver_steamcmd.FilePath.Join.{is_abs-join}
use nomad_driver_steamcmd.Config.{TaskConfig, LaunchConfig}
use nomad_driver_steamcmd.Launch.{
  WindowsRuntime, proton_script, build_launch_command, resolve_launch_path,
}

is_abs-contains_byte : (p : Text) → is_abs p ≡ true → contains_byte p slash ≡ true
unfolding is_abs contains_byte
is_abs-contains_byte [] h = cc
is_abs-contains_byte (a ∷ p) h = ground arith

-- For an absolute install directory, the command is resolved to an absolute path exactly when it
-- has a slash in it; a bare name stays as it is, for the lookup in `$PATH`.
pub resolve_launch_path-is_abs :
    (command install_dir : Text)
    → is_abs install_dir ≡ true
    → (is_abs (resolve_launch_path command install_dir) ≡ contains_byte command slash)
      × (contains_byte command slash ≡ false → resolve_launch_path command install_dir ≡ command)
unfolding resolve_launch_path
resolve_launch_path-is_abs command install_dir rooted =
    elim (Bool-cases (contains_byte command slash)) [
      | inl path ↦ elim (Bool-cases (is_abs command)) [
        | inl absolute ↦ rw (path, absolute) (absolute, λ h. cc)
        | inr relative ↦ rw (path, relative) (is_abs-join install_dir command rooted, λ h. cc)
      ]
      | inr bare ↦ rw bare (bare-relative bare, λ h. refl)
    ]
  where
    bare-relative : contains_byte command slash ≡ false → is_abs command ≡ false
    bare-relative bare = elim (Bool-cases (is_abs command)) [
      | inl absolute ↦ absurd (false≢true (sym bare ∙ is_abs-contains_byte command absolute))
      | inr relative ↦ relative
    ]

-- What stands in front of the task's own command line.
abbrev pub wrapper : TaskConfig → WindowsRuntime → List Text
wrapper cfg rt =
    let display =
      if cfg.windows_display then bytes "xvfb-run" ∷ bytes "--auto-servernum" ∷ [] else [] in
    if cfg.platform == bytes "windows"
    then display ++ (proton_script rt.proton_path ∷ bytes "run" ∷ [])
    else []

-- The command line is the task's own command and arguments, unchanged, behind a wrapper: none unless
-- the platform is windows, else Proton's script and `run`, behind xvfb-run if a display is wanted.
pub build_launch_command-wrapper :
    (cfg : TaskConfig) (launch : LaunchConfig) (rt : WindowsRuntime)
    → let (command, args) = build_launch_command cfg launch rt in
      command ∷ args ≡ wrapper cfg rt ++ (launch.command ∷ launch.args)
unfolding build_launch_command
build_launch_command-wrapper cfg launch rt = elim (Bool-cases (cfg.platform == bytes "windows")) [
  | inl windows ↦ elim (Bool-cases cfg.windows_display) [
    | inl display ↦ ground arith
    | inr none_ ↦ ground arith
  ]
  | inr other ↦ ground arith
]
