-- ===== src/Examples/Driver.antt =====
-- Configuring the driver.
use nomad_driver_steamcmd.Base.{
  ℕ, Text, bytes, text_eq, text_beq, ◌==◌, Option, some, [], ◌∷◌, if◌then◌else◌, Result, ok, err,
  system, List, map, ◌≡◌, refl,
}
use nomad_driver_steamcmd.Config.{PluginConfig}
use nomad_driver_steamcmd.Driver.{
  Driver, zero_config, Fingerprint, undetected, healthy, new_plugin, set_config,
}
use nomad_driver_steamcmd.Driver.Plugin.{factory}
use nomad_driver_steamcmd.Driver.Fingerprints.{
  DriverEvent, configured, ticked, cancelled, handle_fingerprint,
}

abbrev limited : Text → Result PluginConfig
limited raw = ok (record zero_config { max_concurrent = 2 })

abbrev node : Option ℕ
node = some 7

abbrev configured_driver : Driver ℕ
configured_driver = record {
  config = record zero_config { max_concurrent = 2; steamcmd_path = bytes "steamcmd" };
  agent = node;
  slots = some 2;
}

-- The configuration after a call of `SetConfig` with a limit.
limited_slots : set_config limited (bytes "raw") node (new_plugin {A = ℕ}) ≡ ok configured_driver
unfolding set_config text_beq
limited_slots = refl

-- steamcmd is not found at first, and a configuration names another one later.
abbrev elsewhere : Text → Result Text
elsewhere path = if path == bytes "steamcmd" then err (system (bytes "not found")) else ok path

abbrev named : Text → Result PluginConfig
named raw = ok (record zero_config { steamcmd_path = raw })

abbrev events : List (DriverEvent ℕ)
events = configured (bytes "/opt/steamcmd") node ∷ ticked elsewhere ∷ cancelled ∷ []

healths :
    map (λ (f : Fingerprint). f.health) (handle_fingerprint named elsewhere events new_plugin)
    ≡ undetected (bytes "steamcmd") ∷ healthy ∷ []
unfolding handle_fingerprint new_plugin set_config text_beq
healths = refl

-- `NewPlugin` through `factory`.
made : factory {A = ℕ} ≡ new_plugin
unfolding factory
made = refl
