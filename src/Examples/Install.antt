-- ===== src/Examples/Install.antt =====
-- What the output of steamcmd decides.
use nomad_driver_steamcmd.Base.{
  ◌+◌, ◌*◌, Text, bytes, text_beq, trim_space, any, All, map, contains_byte, true, false, some,
  none, List, [], ◌∷◌, ◌++◌, system, pos, ◌≡◌, ◌↔◌, refl, arith,
}
use nomad_driver_steamcmd.Regexp.{match_string, find_submatch, submatch}
use nomad_driver_steamcmd.Steamcmd.Patterns.{re_success, re_auth_err, re_progress}
use nomad_driver_steamcmd.Steamcmd.Lines.Laws.{PlainLine}
use nomad_driver_steamcmd.Steamcmd.Lines.{drop_return}
use nomad_driver_steamcmd.Steamcmd.Reader.{seen_lines}
use nomad_driver_steamcmd.Steamcmd.Reader.Seen.{unlines, chomp, Shows, seen_lines-unlines}
use nomad_driver_steamcmd.Steamcmd.Install.{
  Timing, exited, run_install, scan_line, progress_message,
}
use nomad_driver_steamcmd.Steamcmd.Install.Verdict.{
  is_success, run_install-marked, run_install-whole_lines,
}
use nomad_driver_steamcmd.Steamcmd.Install.Throttle.{Apart, run_install-Apart}

success_line : match_string re_success (bytes "Success! App '2394010' fully installed.") ≡ true
unfolding match_string re_success
success_line = refl

locale_warning :
    match_string re_auth_err (bytes "WARNING: setlocale('en_US.UTF-8') failed, using locale: 'C'")
    ≡ false
unfolding match_string re_auth_err
locale_warning = refl

progress_line :
    find_submatch re_progress (bytes " Update state (0x61) downloading, progress: 42.13 (1 / 2)")
    ≡ some ((2, bytes "42.13") ∷ (1, bytes "downloading") ∷ [])
unfolding find_submatch re_progress
progress_line = refl

-- A buffer of 16 bytes, and reads of the pipe that deliver five bytes or fewer: of the overlong line
-- the loop looks at bytes that were read later, and its marker is not among them.
overlong :
    seen_lines 16 (λ _. 4) (bytes "ERROR! this line does not fit\r\nSuccess! App\n")
    ≡ bytes " does not fit\r\ne" ∷ bytes "Success! App" ∷ []
unfolding seen_lines text_beq
overlong = refl

abbrev two_lines : List Text
two_lines = bytes "ERROR! this line does not fit" ∷ bytes "Success! App" ∷ []

two_lines-PlainLine : All PlainLine two_lines
unfolding contains_byte
two_lines-PlainLine = (refl, (refl, tt))

seen_lines-unlines_example :
    (xs more : List Text) × (seen_lines 16 (λ _. 4) (unlines two_lines ++ bytes "partial")
      ≡ xs ++ more)
    × Shows 16 two_lines xs
seen_lines-unlines_example =
    seen_lines-unlines 16 (λ _. 4) (omega arith) two_lines (bytes "partial") two_lines-PlainLine

abbrev pub timing : Timing
timing = record { now = λ i. (i + 1) * 3_000_000_000; amount = λ _. 40 }

abbrev marker : Text
marker = bytes "Success! App '2394010' fully installed."

abbrev noise : Text
noise = bytes "FAILED (No cached session)"

abbrev lied : List Text
lied = bytes "Loading Steam API...OK" ∷ noise ∷ []

lied-PlainLine : All PlainLine (noise ∷ marker ∷ [])
unfolding contains_byte
lied-PlainLine = (refl, (refl, tt))

run_install-marked_example :
    (run_install true timing
      (unlines (noise ∷ marker ∷ []) ++ bytes "tail")
      (exited (pos 8) (some (system (bytes "exit status 8"))))).failure
    ≡ none
unfolding is_success match_string re_success drop_return
run_install-marked_example =
    run_install-marked true timing (noise ∷ []) [] marker (bytes "tail") (pos 8)
      (some (system (bytes "exit status 8"))) lied-PlainLine (omega arith) refl

lied-whole : All PlainLine lied
unfolding contains_byte
lied-whole = (refl, (refl, tt))

run_install-whole_lines_example :
    ((run_install true timing (unlines lied) (exited (pos 0) none)).failure ≡ none)
    ↔ (any is_success (map chomp lied) ≡ true)
run_install-whole_lines_example =
    run_install-whole_lines true timing lied (pos 0) none lied-whole (omega arith)

-- Three lines of progress, at 3, 6 and 11 seconds, of which the first comes too early.
abbrev downloading : List Text
downloading =
    bytes " Update state (0x61) downloading, progress: 1.00 (1 / 100)"
    ∷ bytes " Update state (0x61) downloading, progress: 42.13 (42 / 100)"
    ∷ bytes " Update state (0x61) downloading, progress: 99.50 (99 / 100)"
    ∷ []

abbrev download_timing : Timing
download_timing = record { now = λ i. (i * i + 2 * i + 3) * 1_000_000_000; amount = λ _. 400 }

reported_twice :
    (run_install true download_timing (unlines downloading) (exited (pos 0) none)).reported
    ≡ (11_000_000_000, bytes "downloading, 99.50%")
      ∷ (6_000_000_000, bytes "downloading, 42.13%")
      ∷ []
unfolding run_install find_submatch re_progress text_beq scan_line progress_message trim_space
    submatch
reported_twice = refl

run_install-Apart_example :
    Apart (run_install true download_timing (unlines downloading) (exited (pos 0) none)).reported
run_install-Apart_example =
    run_install-Apart true download_timing (unlines downloading) (exited (pos 0) none)
