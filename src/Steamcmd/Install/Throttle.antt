-- ===== src/Steamcmd/Install/Throttle.antt =====
-- How often progress is reported.
use nomad_driver_steamcmd.Base.{
  ℕ, suc, ◌+◌, ◌-◌, ◌≤◌, leb, Text, Bool, true, List, [], ◌∷◌, ◌≡◌, refl, arith, ◌&&◌, Option-cases,
  Bool-cases, inl, inr,
}
use nomad_driver_steamcmd.Regexp.{find_submatch}
use nomad_driver_steamcmd.Steamcmd.Patterns.{re_progress}
use nomad_driver_steamcmd.Steamcmd.Reader.{seen_lines}
use nomad_driver_steamcmd.Steamcmd.Install.{
  progress_throttle, buffer_size, Scan, scan_line, scan_lines, note_progress, progress_message,
  nothing_seen, Timing, ProcessEnd, not_started, exited, run_install,
}

-- Messages, the latest first, each `progress_throttle` or more after the one before, and the first of
-- them that long before `at`.
abbrev Gap : ℕ → List (ℕ × Text) → Type 0
Gap at [] = Unit
Gap at ((before, _) ∷ older) = (before + progress_throttle ≤ at) × Gap before older

-- The latest message is at the time `last`.
abbrev Spaced : ℕ → List (ℕ × Text) → Type 0
Spaced last [] = Unit
Spaced last ((at, _) ∷ older) = (last ≡ at) × Gap at older

Spaced-cons :
    (last now : ℕ) (m : Text) (older : List (ℕ × Text))
    → Spaced last older
    → leb progress_throttle (now - last) ≡ true
    → Spaced now ((now, m) ∷ older)
Spaced-cons last now m [] h k = (refl, tt)
Spaced-cons last now m ((at, _) ∷ older) h k = (refl, (ground (arith, h.0), h.1))

note_progress-Spaced :
    (reports : Bool) (now : ℕ) (line : Text) (s : Scan)
    → Spaced s.last_progress s.reported
    → let s' = note_progress reports now line s in Spaced s'.last_progress s'.reported
unfolding note_progress
note_progress-Spaced reports now line s h = elim (Option-cases (find_submatch re_progress line)) [
  | inl nothing ↦ rw (nothing, note_progress) h
  | inr (m, e) ↦ elim (Bool-cases (reports && leb progress_throttle (now - s.last_progress))) [
    | inr early ↦ rw (e, early, note_progress) h
    | inl due ↦
        rw (e, due, note_progress)
          (Spaced-cons s.last_progress now (progress_message m) s.reported h (ground arith))
  ]
]

scan_lines-Spaced :
    (reports : Bool) (now : ℕ → ℕ) (i : ℕ) (lines : List Text) (s : Scan)
    → Spaced s.last_progress s.reported
    → let s' = scan_lines reports now i lines s in Spaced s'.last_progress s'.reported
unfolding scan_lines scan_line
scan_lines-Spaced reports now i [] s h = h
scan_lines-Spaced reports now i (line ∷ lines) s h =
    scan_lines-Spaced reports now (suc i) lines _ (note_progress-Spaced reports (now i) line _ h)

-- Messages, the latest first, of which each comes 5 seconds or more after the one before.
abbrev pub Apart : List (ℕ × Text) → Type 0
Apart [] = Unit
Apart ((at, _) ∷ older) = Gap at older

Spaced-Apart : (last : ℕ) (reported : List (ℕ × Text)) → Spaced last reported → Apart reported
Spaced-Apart last [] h = tt
Spaced-Apart last ((at, _) ∷ older) h = h.1

-- The progress messages of a run are 5 seconds or more apart, whatever the clock reads.
pub run_install-Apart :
    (reports : Bool) (t : Timing) (output : Text) (end : ProcessEnd)
    → Apart (run_install reports t output end).reported
unfolding run_install
run_install-Apart reports t output (not_started e) =
    Spaced-Apart _ _
      (scan_lines-Spaced reports t.now 0 (seen_lines buffer_size t.amount output) nothing_seen tt)
run_install-Apart reports t output (exited code e) =
    Spaced-Apart _ _
      (scan_lines-Spaced reports t.now 0 (seen_lines buffer_size t.amount output) nothing_seen tt)
