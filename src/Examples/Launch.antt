-- ===== src/Examples/Launch.antt =====
-- Commands, signals and runtimes.
use nomad_driver_steamcmd.Base.{
  nat_eq, Text, bytes, text_beq, text_eq, pos, negsuc, read_digits, Bool, true, false, Option, none,
  [], ◌∷◌, ok, err, unsupported_signal, ◌≡◌, refl,
}
use nomad_driver_steamcmd.Config.{TaskConfig, PluginConfig, LaunchConfig}
use nomad_driver_steamcmd.Regexp.{find_submatch, submatch}
use nomad_driver_steamcmd.Steamcmd.Patterns.{is_app_id, re_state_flags}
use nomad_driver_steamcmd.Launch.{WindowsRuntime, parse_signal, app_installed, magnitude}

abbrev task : TaskConfig
task = record {
  app_id = bytes "2915550";
  install_dir = bytes "/srv/foundry";
  beta = [];
  beta_password = [];
  validate = false;
  platform = bytes "windows";
  proton_path = [];
  compat_data_path = [];
  compat_client_path = bytes "/opt/steam";
  windows_display = true;
  login_anonymous = true;
  login_username = [];
  login_password = [];
  login_password_file = [];
  config_files = [];
  follow_logs = [];
  launch = none;
  update_on_start = true;
  install_timeout = [];
  repair_manifest = true;
}

abbrev plugin : PluginConfig
plugin = record {
  steamcmd_path = bytes "steamcmd";
  default_login_anonymous = true;
  default_login_username = [];
  default_login_password = [];
  default_login_password_file = [];
  default_proton_path = bytes "/opt/proton";
  install_root = [];
  max_concurrent = 1;
}

abbrev launch : LaunchConfig
launch = record { command = bytes "bin/server.exe"; args = bytes "-log" ∷ []; env = [] }

abbrev runtime : WindowsRuntime
runtime = record {
  proton_path = bytes "/opt/proton";
  compat_data_path = bytes "/alloc/task/local/compat";
  client_path = bytes "/opt/steam";
}

abbrev nothing_there : Text → Option Bool
nothing_there path = none

signals :
    (parse_signal (bytes "SIGINT") ≡ ok (pos 2))
    × (parse_signal (bytes "KILL") ≡ ok (pos 9))
    × (parse_signal (bytes "-1") ≡ ok (negsuc 0))
    × (parse_signal (bytes "SIGSTOP") ≡ err (unsupported_signal (bytes "SIGSTOP")))
unfolding parse_signal text_beq read_digits
signals = (refl, refl, refl, refl)

-- A manifest of a complete installation, and one of an installation that was broken off.
installed :
    (app_installed (λ path. ok (bytes "\"StateFlags\"\t\t\"4\"\n")) (bytes "/srv") (bytes "10")
      ≡ true)
    × (app_installed (λ path. ok (bytes "\"StateFlags\"\t\t\"1026\"\n")) (bytes "/srv") (bytes "10")
        ≡ false)
unfolding app_installed is_app_id find_submatch re_state_flags read_digits magnitude submatch
installed = (refl, refl)
