-- ===== src/Config.antt =====
-- driver/config.go: the plugin's and a task's configuration, and the login that they give. A Go map
-- is an association list, in the order in which a `range` over it happens to go.
pub mod Schema
use nomad_driver_steamcmd.Base.{
  ℕ, Text, text_eq, ◌==◌, Bool, not, ◌&&◌, Option, List, [], if◌then◌else◌,
}

pub record LoginConfig : Type 0 where
  pub anonymous : Bool
  pub username : Text
  pub password : Text
  pub password_file : Text

pub record PluginConfig : Type 0 where
  pub steamcmd_path : Text
  pub default_login_anonymous : Bool
  pub default_login_username : Text
  pub default_login_password : Text
  pub default_login_password_file : Text
  pub default_proton_path : Text
  pub install_root : Text
  pub max_concurrent : ℕ

pub record LaunchConfig : Type 0 where
  pub command : Text
  pub args : List Text
  pub env : List (Text × Text)

pub record TaskConfig : Type 0 where
  pub app_id : Text
  pub install_dir : Text
  pub beta : Text
  pub beta_password : Text
  pub validate : Bool
  pub platform : Text
  pub proton_path : Text
  pub compat_data_path : Text
  pub compat_client_path : Text
  pub windows_display : Bool
  pub login_anonymous : Bool
  pub login_username : Text
  pub login_password : Text
  pub login_password_file : Text
  pub config_files : List (List (Text × Text))
  pub follow_logs : List Text
  pub launch : Option LaunchConfig
  pub update_on_start : Bool
  pub install_timeout : Text
  pub repair_manifest : Bool

unfoldable pub default_login : PluginConfig → LoginConfig
default_login p = record {
  anonymous = p.default_login_anonymous;
  username = p.default_login_username;
  password = p.default_login_password;
  password_file = p.default_login_password_file;
}

unfoldable pub task_login : TaskConfig → LoginConfig
task_login t = record {
  anonymous = t.login_anonymous;
  username = t.login_username;
  password = t.login_password;
  password_file = t.login_password_file;
}

unfoldable pub is_zero_login : LoginConfig → Bool
is_zero_login l = not l.anonymous && l.username == [] && l.password == [] && l.password_file == []

unfoldable pub resolve_login : LoginConfig → LoginConfig → LoginConfig
unfolding is_zero_login
resolve_login task def = if not (is_zero_login task) then task else def
