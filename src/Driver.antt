-- ===== src/Driver.antt =====
-- driver/driver.go: the plugin's configuration, its fingerprint, and the slots for concurrent installs.
pub mod Slots
pub mod Release
pub mod Plugin
pub mod Fingerprints
use nomad_driver_steamcmd.Base.{
  ℕ, zero, suc, ltb, nat_eq, Text, bytes, text_eq, ◌==◌, Bool, true, false, Option, none, some,
  List, [], ◌∷◌, if◌then◌else◌, Result, ok, err, ◌>>=◌, ◌<◌, ◌≡◌, ◌++◌,
}
use nomad_driver_steamcmd.Config.{PluginConfig}

-- The state of a driver that its configuration sets; `A` is what Nomad's agent passes on. The slots
-- are those of the channel `installSem`: the capacity of the channel that was made last, if any.
pub record Driver (A : Type 0) : Type 0 where
  pub config : PluginConfig
  pub agent : Option A
  pub slots : Option ℕ

-- The zero value of `PluginConfig`.
abbrev pub zero_config : PluginConfig
zero_config = record {
  steamcmd_path = [];
  default_login_anonymous = false;
  default_login_username = [];
  default_login_password = [];
  default_login_password_file = [];
  default_proton_path = [];
  install_root = [];
  max_concurrent = 0;
}

-- `NewPlugin`
unfoldable pub new_plugin : {A : Type 0} → Driver A
new_plugin = record {
  config = record zero_config { steamcmd_path = bytes "steamcmd" };
  agent = none;
  slots = none;
}

unfoldable pub with_steamcmd : PluginConfig → PluginConfig
with_steamcmd c = if c.steamcmd_path == [] then record c { steamcmd_path = bytes "steamcmd" } else c

-- `SetConfig`; `decode` is `base.MsgPackDecode` into a zero value. A negative number of installs means
-- the same as 0, and is 0 here.
unfoldable pub set_config :
    {A : Type 0} → (Text → Result PluginConfig) → Text → Option A → Driver A → Result (Driver A)
unfolding with_steamcmd
set_config decode raw agent d = do
  decoded ← if raw == [] then ok zero_config else decode raw
  let config = with_steamcmd decoded
  ok (record {
    config = config;
    agent = elim agent [ some a ↦ some a | none ↦ d.agent ];
    slots = if ltb 0 config.max_concurrent then some config.max_concurrent else none;
  })

pub data Health : Type 0 where
  undetected : Text → Health
  healthy : Health

pub data Attribute : Type 0 where
  flag : Bool → Attribute
  value : Text → Attribute

pub record Fingerprint : Type 0 where
  pub attributes : List (Text × Attribute)
  pub health : Health

-- `buildFingerprint`; `look_path` is `exec.LookPath`.
unfoldable pub build_fingerprint : {A : Type 0} → (Text → Result Text) → Driver A → Fingerprint
build_fingerprint look_path d = elim (look_path d.config.steamcmd_path) [
  | err e ↦ record { attributes = []; health = undetected d.config.steamcmd_path }
  | ok path ↦ record {
    attributes =
        (bytes "driver.steamcmd", flag true) ∷ (bytes "driver.steamcmd.path", value path) ∷ [];
    health = healthy;
  }
]

-- A task that asks for a slot holds one of the channel's, or none: without a channel, or when its
-- context ends while it waits.
pub data Slot : Type 0 where
  of_channel no_slot : Slot

-- How many of the held slots are the channel's.
unfoldable pub in_channel : List Slot → ℕ
in_channel [] = 0
in_channel (of_channel ∷ held) = suc (in_channel held)
in_channel (no_slot ∷ held) = in_channel held
