-- ===== src/Driver/Plugin.antt =====
-- What the plugin tells Nomad of itself: driver/driver.go, and cmd/main.go, which serves it.
use nomad_driver_steamcmd.Base.{Text, bytes, Bool, true, false, List, [], ◌∷◌}
use nomad_driver_steamcmd.Config.Schema.{Fields, config_spec, task_config_spec}
use nomad_driver_steamcmd.Driver.{Driver, new_plugin}

pub data PluginType : Type 0 where
  plugin_type_driver : PluginType

-- `base.PluginInfoResponse`
pub record PluginInfoResponse : Type 0 where
  pub type_ : PluginType
  pub api_versions : List Text
  pub version : Text
  pub name : Text

abbrev pub plugin_name : Text
plugin_name = bytes "steamcmd"

-- The version of a build that sets none.
abbrev pub plugin_version : Text
plugin_version = bytes "v0.0.0-dev"

-- `PluginInfo`, with the API version of Nomad's package and the version that the build sets.
unfoldable pub plugin_info : Text → Text → PluginInfoResponse
plugin_info api_version version = record {
  type_ = plugin_type_driver;
  api_versions = api_version ∷ [];
  version = version;
  name = plugin_name;
}

pub data FsIsolation : Type 0 where
  fs_isolation_none : FsIsolation

pub data NetIsolationMode : Type 0 where
  net_isolation_mode_host : NetIsolationMode

pub data MountConfigSupport : Type 0 where
  mount_config_support_all : MountConfigSupport

-- `drivers.Capabilities`
pub record Capabilities : Type 0 where
  pub send_signals : Bool
  pub exec : Bool
  pub fs_isolation : FsIsolation
  pub net_isolation_modes : List NetIsolationMode
  pub must_initiate_network : Bool
  pub mount_configs : MountConfigSupport

-- `driverCapabilities`, which `Capabilities` returns.
unfoldable pub driver_capabilities : Capabilities
driver_capabilities = record {
  send_signals = true;
  exec = false;
  fs_isolation = fs_isolation_none;
  net_isolation_modes = net_isolation_mode_host ∷ [];
  must_initiate_network = false;
  mount_configs = mount_config_support_all;
}

-- `ConfigSchema` and `TaskConfigSchema`
unfoldable pub config_schema : Fields
config_schema = config_spec

unfoldable pub task_config_schema : Fields
task_config_schema = task_config_spec

-- `factory`
unfoldable pub factory : {A : Type 0} → Driver A
unfolding new_plugin
factory = new_plugin
