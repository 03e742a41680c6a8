-- ===== src/Steamcmd/Install/Verdict.antt =====
-- What decides the outcome of an install: the lines that were printed.
use nomad_driver_steamcmd.Base.{
  ℕ, suc, Text, any, Bool, true, ◌||◌, Option, none, some, List, [], ◌∷◌, ◌++◌, ◌≡◌, ◌↔◌, refl,
  arith, if◌then◌else◌, Error, auth_failed, incomplete, ℤ, ◌∙◌, ap, ap₂, All, ◌<◌, length, map,
}
use nomad_driver_steamcmd.Regexp.{match_string}
use nomad_driver_steamcmd.Steamcmd.Patterns.{re_success, re_auth_err, re_stale_manifest}
use nomad_driver_steamcmd.Steamcmd.Reader.{seen_lines}
use nomad_driver_steamcmd.Steamcmd.Reader.Seen.{
  unlines, chomp, seen_lines-chomp, seen_lines-unlines, Shows,
}
use nomad_driver_steamcmd.Steamcmd.Lines.Laws.{PlainLine}
use nomad_driver_steamcmd.Steamcmd.Install.{
  InstallResult, Scan, scan_line, scan_lines, nothing_seen, Timing, judge, exited, run_install,
  buffer_size,
}

-- A line with the success marker, a line about a failed login, the line about a stale manifest.
unfoldable pub is_success : Text → Bool
is_success = match_string re_success

unfoldable pub is_auth_failure : Text → Bool
is_auth_failure = match_string re_auth_err

unfoldable pub is_stale : Text → Bool
is_stale = match_string re_stale_manifest

scan_line-flags :
    (reports : Bool) (now : ℕ) (line : Text) (s : Scan)
    → let r = (scan_line reports now line s).result in
      (r.success ≡ (s.result.success || is_success line))
      × (r.saw_auth_failure ≡ (s.result.saw_auth_failure || is_auth_failure line))
      × (r.stale_manifest ≡ (s.result.stale_manifest || is_stale line))
unfolding scan_line is_success is_auth_failure is_stale
scan_line-flags reports now line s = (ground arith, ground arith, ground arith)

scan_lines-flags :
    (reports : Bool) (now : ℕ → ℕ) (i : ℕ) (lines : List Text) (s : Scan)
    → let r = (scan_lines reports now i lines s).result in
      (r.success ≡ (s.result.success || any is_success lines))
      × (r.saw_auth_failure ≡ (s.result.saw_auth_failure || any is_auth_failure lines))
      × (r.stale_manifest ≡ (s.result.stale_manifest || any is_stale lines))
unfolding scan_lines any
scan_lines-flags reports now i [] s = (ground arith, ground arith, ground arith)
scan_lines-flags reports now i (line ∷ lines) s =
    let (a, b, c) = scan_line-flags reports (now i) line s in
    let (x, y, z) = scan_lines-flags reports now (suc i) lines (scan_line reports (now i) line s) in
    (ground arith, ground arith, ground arith)

judge-failure :
    (r : InstallResult) (run_err : Option Error)
    → (judge r run_err).1 ≡ (
        if r.success
        then none
        else if r.saw_auth_failure
        then some (auth_failed (judge r run_err).0.message)
        else some (incomplete (judge r run_err).0.message))
unfolding judge
judge-failure r run_err = ground arith

-- The lines that a run looked at.
abbrev pub lines_of : Timing → Text → List Text
lines_of t output = seen_lines buffer_size t.amount output

-- A process that ran to its end failed to install exactly if none of the lines that were read has
-- the success marker, whatever it exited with. The failure is one of the login if some line says so,
-- and else the install is incomplete.
pub run_install-failure :
    (reports : Bool) (t : Timing) (output : Text) (code : ℤ) (run_err : Option Error)
    → let run = run_install reports t output (exited code run_err) in
      run.failure ≡ (
        if any is_success (lines_of t output)
        then none
        else if any is_auth_failure (lines_of t output)
        then some (auth_failed run.result.message)
        else some (incomplete run.result.message))
unfolding run_install
run_install-failure reports t output code run_err =
    let s = scan_lines reports t.now 0 (lines_of t output) nothing_seen in
    let (success, auth, _) = scan_lines-flags reports t.now 0 (lines_of t output) nothing_seen in
    judge-failure (record (s.result) { exit_code = code }) run_err
    ∙ ap₂
        (λ (a b : Bool).
          if a
          then none
          else if b
          then some
              (auth_failed (run_install reports t output (exited code run_err)).result.message)
          else some
              (incomplete (run_install reports t output (exited code run_err)).result.message))
        success auth

run_install-none :
    (reports : Bool) (t : Timing) (output : Text) (code : ℤ) (run_err : Option Error)
    → ((run_install reports t output (exited code run_err)).failure ≡ none)
      ↔ (any is_success (lines_of t output) ≡ true)
run_install-none reports t output code run_err =
    let e = run_install-failure reports t output code run_err in
    (λ h. ground arith, λ h. ground arith)

any-append : (p : Text → Bool) (xs ys : List Text) → any p (xs ++ ys) ≡ (any p xs || any p ys)
unfolding any
any-append p [] ys = refl
any-append p (x ∷ xs) ys = ground (arith, any-append p xs ys)

any-Shows :
    (p : Text → Bool) (size : ℕ) (before : List Text) (l : Text) (after xs : List Text)
    → length l < size
    → p (chomp l) ≡ true
    → Shows size (before ++ (l ∷ after)) xs
    → any p xs ≡ true
unfolding any
any-Shows p size [] l after [] fits marked shows = absurd shows
any-Shows p size [] l after (x ∷ xs) fits marked shows =
    let e = shows.0 fits in ground (arith, ap p e)
any-Shows p size (b ∷ before) l after [] fits marked shows = absurd shows
any-Shows p size (b ∷ before) l after (x ∷ xs) fits marked shows =
    let ih = any-Shows p size before l after xs fits marked shows.1 in ground arith

-- A success marker in a line that fits the buffer is not missed: an install succeeds if steamcmd
-- completes a line of less than 64 KiB with the marker, whatever lines stand before it, overlong ones
-- too, and however it exits.
pub run_install-marked :
    (reports : Bool) (t : Timing) (before after : List Text) (l tail : Text) (code : ℤ)
    (run_err : Option Error)
    → All PlainLine (before ++ (l ∷ after))
    → length l < buffer_size
    → is_success (chomp l) ≡ true
    → (run_install reports t
        (unlines (before ++ (l ∷ after)) ++ tail)
        (exited code run_err)).failure
      ≡ none
run_install-marked reports t before after l tail code run_err plain fits marked =
    let (xs, more, seen, shows) =
      seen_lines-unlines buffer_size t.amount (omega arith) (before ++ (l ∷ after)) tail plain in
    (run_install-none reports t _ code run_err).1 (
      ap (any is_success) seen
      ∙ any-append is_success xs more
      ∙ ap (λ b. b || any is_success more)
          (any-Shows is_success buffer_size before l after xs fits marked shows))

-- An exit code of 0 is not trusted: of an output of whole lines that fit the buffer, the install
-- succeeds exactly if one of them has the success marker.
pub run_install-whole_lines :
    (reports : Bool) (t : Timing) (ls : List Text) (code : ℤ) (run_err : Option Error)
    → All PlainLine ls
    → All (λ l. length l < buffer_size) ls
    → ((run_install reports t (unlines ls) (exited code run_err)).failure ≡ none)
      ↔ (any is_success (map chomp ls) ≡ true)
run_install-whole_lines reports t ls code run_err plain short =
    rw (← seen_lines-chomp buffer_size t.amount (omega arith) ls plain short)
      (run_install-none reports t (unlines ls) code run_err)
