-- ===== src/Examples/Streams.antt =====
-- A run that prints two bytes, and ends; the log takes both.
use nomad_driver_steamcmd.Base.{
  Text, true, false, none, [], ◌∷◌, ◌++◌, pos, ◌≡◌, refl, if◌then◌else◌,
}
use nomad_driver_steamcmd.Steamcmd.Install.{ProcessEnd, exited, InstallRun, run_install}
use nomad_driver_steamcmd.Steamcmd.Streams.{
  waiting, finished, logging, running, judged, Streams, streams, prints, exits, reads, fetches,
  scans, pipes, logs, copied, closes, scan_ends, judges, Reached, begin, step,
}
use nomad_driver_steamcmd.Steamcmd.Streams.Verdicts.{is_failed, unlogged, Reached-judged}
use nomad_driver_steamcmd.Examples.Install.{timing}

abbrev two : Text
two = 65 ∷ 66 ∷ []

abbrev end : ProcessEnd
end = exited (pos 0) none

abbrev verdict : InstallRun
verdict = run_install true timing two end

abbrev over : Streams
over = streams two [] finished two two [] two true (judged verdict)

-- Printed and on its way to the log; the goroutine has it in its buffer.
abbrev halfway : Streams
halfway = streams two [] (logging two) [] two two [] false running

halfway-Reached : Reached true timing end halfway
halfway-Reached =
    step _ halfway
      (step _ _
        (step _ _ (step _ _ begin (prints two [] [] [] [] [] [] waiting false))
          (reads 2 two two [] [] [] [] false running))
        (fetches 2 two [] two two [] [] [] [] running))
      (pipes two [] two [] two two [] false running)

over-Reached : Reached true timing end over
over-Reached =
    step _ over
      (step _ _
        (step _ _
          (step _ _
            (step _ _
              (step _ _ (step _ _ halfway-Reached (logs two [] two [] two two [] false running))
                (scans 2 two [] two two two [] waiting running))
              (exits two [] two two [] two waiting false))
            (copied two two two [] two false))
          (closes two [] two two [] two finished false refl))
        (scan_ends two [] two two two finished refl))
      (judges two [] two two [] two finished)

Reached-judged_example :
    (verdict ≡ run_install true timing over.scanned end)
    × (over.printed ≡ (if is_failed over.copier then over.scanned ++ over.unread else over.scanned))
    × (over.scanned
        ≡ (if is_failed over.copier then over.log ++ unlogged over.copier else over.log))
Reached-judged_example = Reached-judged true timing end over verdict over-Reached refl
