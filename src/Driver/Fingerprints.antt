-- ===== src/Driver/Fingerprints.antt =====
-- The fingerprints that a driver sends while it is configured anew now and then.
use nomad_driver_steamcmd.Base.{ℕ, Text, text_eq, Option, List, [], ◌∷◌, Result, ok, err}
use nomad_driver_steamcmd.Config.{PluginConfig}
use nomad_driver_steamcmd.Driver.{Driver, Fingerprint, set_config, build_fingerprint}

-- `exec.LookPath`
abbrev pub LookPath : Type 0
LookPath = Text → Result Text

-- `fingerprintPeriod`, in nanoseconds.
abbrev pub fingerprint_period : ℕ
fingerprint_period = 30000000000

-- What happens between two fingerprints: `SetConfig` is called, the ticker ticks, when `LookPath` may
-- find something else than before, or one of the contexts is cancelled.
pub data DriverEvent (A : Type 0) : Type 0 where
  configured : Text → Option A → DriverEvent A
  ticked : LookPath → DriverEvent A
  cancelled : DriverEvent A

module _ {A : Type 0} (decode : Text → Result PluginConfig) where
  -- A configuration that cannot be decoded changes nothing.
  unfoldable pub configured_by : Text → Option A → Driver A → Driver A
  unfolding set_config
  configured_by raw agent d = elim (set_config decode raw agent d) [ ok d' ↦ d' | err _ ↦ d ]

  -- The loop of `handleFingerprint`, from its `select` on.
  unfoldable pub fingerprints_from : List (DriverEvent A) → Driver A → List Fingerprint
  unfolding configured_by build_fingerprint
  fingerprints_from [] d = []
  fingerprints_from (configured raw agent ∷ events) d =
      fingerprints_from events (configured_by raw agent d)
  fingerprints_from (ticked look_path ∷ events) d =
      build_fingerprint look_path d ∷ fingerprints_from events d
  fingerprints_from (cancelled ∷ events) d = []

  -- `handleFingerprint`
  unfoldable pub handle_fingerprint : LookPath → List (DriverEvent A) → Driver A → List Fingerprint
  unfolding fingerprints_from build_fingerprint
  handle_fingerprint look_path events d = build_fingerprint look_path d ∷ fingerprints_from events d
