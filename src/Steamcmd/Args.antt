-- ===== src/Steamcmd/Args.antt =====
-- The command line of an install: `buildArgs` and `resolvePassword`. `read_file` is `os.ReadFile`.
pub mod Commands
pub mod Login
use nomad_driver_steamcmd.Base.{
  ℕ, Text, bytes, text_eq, ◌==◌, trim_space, Bool, true, false, not, ◌&&◌, ◌||◌, Option, none, some,
  List, [], ◌∷◌, ◌++◌, if◌then◌else◌, Result, ok, err, Error, invalid_platform, no_login,
  no_password, reading_password_file, ◌>>=◌,
}
use nomad_driver_steamcmd.Config.{LoginConfig, TaskConfig}

-- `validSteamPlatforms`
unfoldable pub valid_steam_platform : Text → Bool
valid_steam_platform p = p == bytes "windows" || p == bytes "macos" || p == bytes "linux"

unfoldable pub platform_args : Text → Result (List Text)
unfolding valid_steam_platform
platform_args platform =
    if platform == []
    then ok []
    else if not (valid_steam_platform platform)
    then err (invalid_platform platform)
    else ok (bytes "+@sSteamCmdForcePlatformType" ∷ platform ∷ [])

unfoldable pub update_args : TaskConfig → List Text
update_args cfg =
    (bytes "+app_update" ∷ cfg.app_id ∷ [])
    ++ ((if cfg.beta == []
          then []
          else (bytes "-beta" ∷ cfg.beta ∷ [])
            ++ (if cfg.beta_password == []
                then []
                else bytes "-betapassword" ∷ cfg.beta_password ∷ []))
        ++ (if cfg.validate then bytes "validate" ∷ [] else []))

module _ (read_file : Text → Result Text) where
  unfoldable pub resolve_password : LoginConfig → Result Text
  resolve_password login =
      if not (login.password == [])
      then ok login.password
      else if not (login.password_file == [])
      then elim (read_file login.password_file) [
        | ok b ↦ ok (trim_space b)
        | err e ↦ err (reading_password_file login.password_file e)
      ]
      else err no_password

  unfoldable pub login_args : LoginConfig → Result (List Text)
  unfolding resolve_password
  login_args login =
      if login.anonymous
      then ok (bytes "+login" ∷ bytes "anonymous" ∷ [])
      else if not (login.username == [])
      then (resolve_password login >>= λ pw. ok (bytes "+login" ∷ login.username ∷ pw ∷ []))
      else err no_login

  unfoldable pub build_args : TaskConfig → LoginConfig → Text → Result (List Text)
  build_args cfg login install_dir = do
    platform ← platform_args cfg.platform
    who ← login_args login
    ok (
        platform
        ++ ((bytes "+force_install_dir" ∷ install_dir ∷ [])
            ++ (who ++ (update_args cfg ++ (bytes "+quit" ∷ [])))))
