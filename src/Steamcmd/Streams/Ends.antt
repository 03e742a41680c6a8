-- ===== src/Steamcmd/Streams/Ends.antt =====
-- That a run can always come to its verdict.
use nomad_driver_steamcmd.Base.{Bool, ◌≡◌}
use nomad_driver_steamcmd.Steamcmd.Install.{Timing, ProcessEnd, InstallRun}
use nomad_driver_steamcmd.Steamcmd.Streams.{judged, Streams, Reached}

module _ (reports : Bool) (timing : Timing) (end : ProcessEnd) where
  -- The run can be brought to a verdict on it without a further piece of output.
  Ends : Streams → Type 0
  Ends s =
      (t : Streams) × (v : InstallRun) × Reached reports timing end t
      × (t.stage ≡ judged v)
      × (t.printed ≡ s.printed)

  Reaches : Streams → Type 0
  Reaches s = Reached reports timing end s
