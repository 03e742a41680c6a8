-- ===== src/Examples/Args.antt =====
-- The command line of an install.
use nomad_driver_steamcmd.Base.{
  Text, bytes, text_beq, has_prefix, trim_space, true, false, none, List, [], ◌∷◌, ◌++◌, Result, ok,
  err, IsOk, ◌≡◌, ◌↔◌, refl, arith, invalid_platform,
}
use nomad_driver_steamcmd.Config.{TaskConfig, LoginConfig}
use nomad_driver_steamcmd.Steamcmd.Args.{
  build_args, update_args, platform_args, login_args, resolve_password,
}
use nomad_driver_steamcmd.Steamcmd.Args.Commands.{
  commands, platform_command, PlainValues, IsValue, build_args-commands,
}
use nomad_driver_steamcmd.Steamcmd.Args.Login.{CanLogIn, IsKnownPlatform, build_args-IsOk}

-- A file system with one file.
abbrev read_secret : Text → Result Text
read_secret path = ok (bytes " hunter2\n")

abbrev palworld : TaskConfig
palworld = record {
  app_id = bytes "2394010";
  install_dir = bytes "local/steamapp";
  beta = bytes "public-test";
  beta_password = bytes "pw";
  validate = true;
  platform = bytes "windows";
  proton_path = [];
  compat_data_path = [];
  compat_client_path = [];
  windows_display = false;
  login_anonymous = false;
  login_username = bytes "gordon";
  login_password = [];
  login_password_file = bytes "secrets/pw";
  config_files = [];
  follow_logs = [];
  launch = none;
  update_on_start = true;
  install_timeout = [];
  repair_manifest = true;
}

abbrev gordon : LoginConfig
gordon = record {
  anonymous = false;
  username = bytes "gordon";
  password = [];
  password_file = bytes "secrets/pw";
}

abbrev palworld_args : List Text
palworld_args =
    bytes "+@sSteamCmdForcePlatformType"
    ∷ bytes "windows"
    ∷ bytes "+force_install_dir"
    ∷ bytes "/srv/app"
    ∷ bytes "+login"
    ∷ bytes "gordon"
    ∷ bytes "hunter2"
    ∷ bytes "+app_update"
    ∷ bytes "2394010"
    ∷ bytes "-beta"
    ∷ bytes "public-test"
    ∷ bytes "-betapassword"
    ∷ bytes "pw"
    ∷ bytes "validate"
    ∷ bytes "+quit"
    ∷ []

palworld_builds : build_args read_secret palworld gordon (bytes "/srv/app") ≡ ok palworld_args
unfolding build_args platform_args login_args update_args trim_space text_beq
palworld_builds = refl

bad_platform :
    build_args read_secret (record palworld { platform = bytes "amiga" }) gordon (bytes "/srv/app")
    ≡ err (invalid_platform (bytes "amiga"))
unfolding build_args platform_args text_beq
bad_platform = refl

plain_palworld : PlainValues palworld gordon (bytes "/srv/app")
unfolding has_prefix
plain_palworld = record {
  plain_platform = refl;
  plain_dir = refl;
  plain_username = refl;
  plain_app_id = refl;
  plain_beta = refl;
  plain_beta_password = refl;
}

plain_secret : (pw : Text) → resolve_password read_secret gordon ≡ ok pw → IsValue pw
unfolding resolve_password trim_space text_beq has_prefix
plain_secret pw h = ground arith

build_args-commands_example :
    (who : List Text) × (login_args read_secret gordon ≡ ok who)
    × (commands palworld_args ≡ (
      [],
      platform_command (bytes "windows")
          ++ ((bytes "+force_install_dir" ∷ bytes "/srv/app" ∷ [])
              ∷ who
              ∷ update_args palworld
              ∷ (bytes "+quit" ∷ [])
              ∷ []),
    ))
build_args-commands_example =
    build_args-commands plain_palworld read_secret plain_secret palworld_builds

build_args-IsOk_example :
    IsOk (build_args read_secret palworld gordon (bytes "/srv/app"))
    ↔ (IsKnownPlatform (bytes "windows") × CanLogIn read_secret gordon)
build_args-IsOk_example = build_args-IsOk read_secret palworld gordon (bytes "/srv/app")
