-- ===== src/Steamcmd/Install.antt =====
-- `runInstall`: what the lines that steamcmd prints mean. The process is given by all that it wrote
-- to stdout and by how it ended; `now` is the clock's reading, in nanoseconds, at each line.
pub mod Verdict
pub mod Throttle
use nomad_driver_steamcmd.Base.{
  ℕ, zero, suc, ◌+◌, ◌-◌, ◌*◌, leb, Text, bytes, text_eq, ◌==◌, trim_space, Bool, true, false, not,
  ◌&&◌, Option, none, some, List, [], ◌∷◌, ◌++◌, if◌then◌else◌, Error, start_failed, auth_failed,
  incomplete, ℤ, pos, itoa,
}
use nomad_driver_steamcmd.Regexp.{Groups, find_submatch, submatch, match_string}
use nomad_driver_steamcmd.Steamcmd.Patterns.{
  re_success, re_error, re_auth_err, re_progress, re_stale_manifest,
}
use nomad_driver_steamcmd.Steamcmd.Reader.{seen_lines}

-- 5 seconds.
abbrev pub progress_throttle : ℕ
progress_throttle = 5_000_000_000

abbrev pub buffer_size : ℕ
buffer_size = 64 * 1024

pub record InstallResult : Type 0 where
  pub success : Bool
  pub saw_auth_failure : Bool
  pub stale_manifest : Bool
  pub exit_code : ℤ
  pub message : Text

-- The variables of the reading goroutine, and the messages handed to `onProgress`, the latest first,
-- each with its time.
pub record Scan : Type 0 where
  pub result : InstallResult
  pub last_progress : ℕ
  pub reported : List (ℕ × Text)

unfoldable pub note_success : Text → InstallResult → InstallResult
note_success line r =
    if match_string re_success line then record r { success = true; message = line } else r

unfoldable pub note_stale : Text → InstallResult → InstallResult
note_stale line r =
    if match_string re_stale_manifest line then record r { stale_manifest = true } else r

unfoldable pub note_auth : Text → InstallResult → InstallResult
note_auth line r =
    if match_string re_auth_err line
    then record r { saw_auth_failure = true; message = line }
    else r

unfoldable pub note_error : Text → InstallResult → InstallResult
note_error line r = elim (find_submatch re_error line) [
  | some m ↦ if not r.success then record r { message = trim_space (submatch 1 m) } else r
  | none ↦ r
]

unfoldable pub progress_message : Groups → Text
progress_message m = trim_space (submatch 1 m) ++ (bytes ", " ++ (submatch 2 m ++ bytes "%"))

unfoldable pub note_progress : Bool → ℕ → Text → Scan → Scan
note_progress reports now line s = elim (find_submatch re_progress line) [
  | some m ↦
      if reports && leb progress_throttle (now - s.last_progress)
      then record s { last_progress = now; reported = (now, progress_message m) ∷ s.reported }
      else s
  | none ↦ s
]

-- One round of the loop, after the line is read.
unfoldable pub scan_line : Bool → ℕ → Text → Scan → Scan
unfolding note_success note_stale note_auth note_error note_progress
scan_line reports now line s =
    let r = note_error line (note_auth line (note_stale line (note_success line s.result))) in
    note_progress reports now line (record s { result = r })

-- The loop; `i` counts the lines.
unfoldable pub scan_lines : Bool → (ℕ → ℕ) → ℕ → List Text → Scan → Scan
scan_lines reports now i [] s = s
scan_lines reports now i (line ∷ lines) s =
    scan_lines reports now (suc i) lines (scan_line reports (now i) line s)

-- How the process ended: it did not start, or it exited with a code; `cmd.Run` may fail either way.
pub data ProcessEnd : Type 0 where
  not_started : Error → ProcessEnd
  exited : ℤ → Option Error → ProcessEnd

-- What `runInstall` writes to the task's stderr.
pub data Note : Type 0 where
  auth_line_before_success : Note
  error_despite_success : Error → Note

pub record InstallRun : Type 0 where
  pub result : InstallResult
  pub failure : Option Error
  pub notes : List Note
  pub reported : List (ℕ × Text)

abbrev pub nothing_seen : Scan
nothing_seen = record {
  result = record {
    success = false;
    saw_auth_failure = false;
    stale_manifest = false;
    exit_code = pos 0;
    message = [];
  };
  last_progress = 0;
  reported = [];
}

unfoldable pub exit_message : ℤ → Text
exit_message code =
    bytes "steamcmd exited " ++ (itoa code ++ bytes " with no success marker in output")

unfoldable pub success_notes : InstallResult → Option Error → List Note
success_notes r run_err =
    (if r.saw_auth_failure then auth_line_before_success ∷ [] else [])
    ++ elim run_err [ none ↦ [] | some e ↦ error_despite_success e ∷ [] ]

-- The verdict, after the process has ended and all its output is read.
unfoldable pub judge : InstallResult → Option Error → InstallResult × Option Error × List Note
unfolding success_notes exit_message
judge r run_err =
    if r.success
    then (r, none, success_notes r run_err)
    else if r.saw_auth_failure
    then (r, some (auth_failed r.message), [])
    else let message = if r.message == [] then exit_message r.exit_code else r.message in
      (record r { message = message }, some (incomplete message), [])

-- The environment of a run: the clock at each line, and how much each read of the pipe delivers.
pub record Timing : Type 0 where
  pub now : ℕ → ℕ
  pub amount : ℕ → ℕ

unfoldable pub run_install : Bool → Timing → Text → ProcessEnd → InstallRun
unfolding judge scan_lines seen_lines
run_install reports t output (not_started e) =
    let s = scan_lines reports t.now 0 (seen_lines buffer_size t.amount output) nothing_seen in
    record { result = s.result; failure = some (start_failed e); notes = []; reported = s.reported }
run_install reports t output (exited code run_err) =
    let s = scan_lines reports t.now 0 (seen_lines buffer_size t.amount output) nothing_seen in
    let (judged, failure, notes) = judge (record (s.result) { exit_code = code }) run_err in
    record { result = judged; failure = failure; notes = notes; reported = s.reported }
