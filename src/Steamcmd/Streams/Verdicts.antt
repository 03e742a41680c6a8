-- ===== src/Steamcmd/Streams/Verdicts.antt =====
-- That a verdict is on all of the output.
use mathlib.Core.List.{append-nil, append_assoc}
use nomad_driver_steamcmd.Base.{
  ℕ, Text, take, drop, Bool, true, false, [], ◌++◌, ◌≡◌, refl, sym, ap, subst, ◌∙◌, if◌then◌else◌,
}
use nomad_driver_steamcmd.Steamcmd.Reader.Slices.{take-append-drop}
use nomad_driver_steamcmd.Steamcmd.Install.{Timing, ProcessEnd, InstallRun, run_install}
use nomad_driver_steamcmd.Steamcmd.Streams.{
  Copier, waiting, finished, piping, logging, failed, Stage, running, exited, closed, judged,
  Streams, is_over, in_pipe, StreamStep, prints, exits, reads, fetches, scans, pipes, logs,
  log_fails, copied, closes, scan_ends, judges, Reached, begin, step,
}

-- Whether a write to the log failed, and what the log has not got of the piece that it was.
abbrev pub is_failed : Copier → Bool
is_failed (failed lost) = true
is_failed _ = false

abbrev pub unlogged : Copier → Text
unlogged (piping rest piece) = piece
unlogged (logging piece) = piece
unlogged (failed lost) = lost
unlogged _ = []

abbrev pub is_finished : Copier → Bool
is_finished finished = true
is_finished _ = false

append-taken : (n : ℕ) (xs ys : Text) → (xs ++ take n ys) ++ drop n ys ≡ xs ++ ys
append-taken n xs ys =
    append_assoc xs (take n ys) (drop n ys) ∙ ap (λ l. xs ++ l) (take-append-drop n ys)

append-moved :
    (xs ys zs vs : Text)
    → xs ++ (ys ++ zs) ≡ vs
    → (piece : Text) → xs ++ (ys ++ (zs ++ piece)) ≡ vs ++ piece
append-moved xs ys zs vs e piece =
    ap (λ l. xs ++ l) (sym (append_assoc ys zs piece))
    ∙ sym (append_assoc xs (ys ++ zs) piece)
    ∙ ap (λ l. l ++ piece) e

-- A copier that is over has left nothing in the pipe.
pub over-empty : (c : Copier) → is_over c ≡ true → in_pipe c ≡ []
over-empty waiting h = refl
over-empty finished h = refl
over-empty (piping rest piece) h = cc
over-empty (logging piece) h = refl
over-empty (failed lost) h = refl

module _ (reports : Bool) (timing : Timing) (end : ProcessEnd) where
  -- What holds at a stage of the run. A copier that has found the end of the output has copied all.
  abbrev pub Staged : Stage → Copier → Text → Bool → Text → Type 0
  Staged running c u d s = (is_finished c ≡ false) × (d ≡ false)
  Staged exited c u d s = (is_finished c ≡ true → u ≡ []) × (d ≡ false)
  Staged closed c u d s = (is_finished c ≡ true → u ≡ []) × (is_over c ≡ true)
  Staged (judged v) c u d s =
      (is_finished c ≡ true → u ≡ [])
      × (is_over c ≡ true)
      × (d ≡ true)
      × (v ≡ run_install reports timing s end)

  -- What was printed is what was fetched, with what the pipe holds and what is still to be copied; the
  -- log is as far, but for the piece that is on its way to both; and what was fetched is scanned in the
  -- end.
  pub record Level (s : Streams) : Type 0 where
    pub read : s.fetched ++ (in_pipe s.copier ++ s.unread) ≡ s.printed
    pub kept : s.log ++ unlogged s.copier ≡ s.fetched ++ in_pipe s.copier
    pub looked : s.scanned ++ s.buffered ≡ s.fetched
    pub emptied : s.scan_done ≡ true → s.buffered ≡ []
    pub staged : Staged s.stage s.copier s.unread s.scan_done s.scanned

  -- A copier that is not over does its next step.
  Staged-moves :
      (g : Stage) (u u' s : Text) (d : Bool) (c c' : Copier)
      → is_over c ≡ false
      → is_finished c' ≡ false
      → Staged g c u d s
      → Staged g c' u' d s
  Staged-moves running u u' s d c c' busy more h = (more, h.1)
  Staged-moves exited u u' s d c c' busy more h = (λ e. cc, h.1)
  Staged-moves closed u u' s d c c' busy more h = absurd (let e = h.1 in cc)
  Staged-moves (judged v) u u' s d c c' busy more h = absurd (let (_, e, _, _) = h in cc)

  -- The goroutine scans on, before it is done.
  Staged-scans :
      (g : Stage) (u s s' : Text) (c : Copier) → Staged g c u false s → Staged g c u false s'
  Staged-scans running u s s' c h = h
  Staged-scans exited u s s' c h = h
  Staged-scans closed u s s' c h = h
  Staged-scans (judged v) u s s' c h = absurd (let (_, _, e, _) = h in cc)

  step-Level : (s t : Streams) → StreamStep reports timing end s t → Level s → Level t
  step-Level s t (prints piece p u l f b sc c d) level = record {
    read = append-moved f (in_pipe c) u p level.read piece;
    kept = level.kept;
    looked = level.looked;
    emptied = level.emptied;
    staged = level.staged;
  }
  step-Level s t (exits p u l f b sc c d) level = record {
    read = level.read;
    kept = level.kept;
    looked = level.looked;
    emptied = level.emptied;
    staged = (λ e. absurd (let f = level.staged.0 in cc), level.staged.1);
  }
  step-Level s t (reads n p u l f b sc d g) level = record {
    read = ap (λ x. f ++ x) (take-append-drop n u) ∙ level.read;
    kept = ap (λ x. x ++ take n u) (sym (append-nil l) ∙ level.kept ∙ append-nil f);
    looked = level.looked;
    emptied = level.emptied;
    staged = Staged-moves g u _ sc d waiting _ refl refl level.staged;
  }
  step-Level s t (fetches n p u rest piece l f b sc g) level = record {
    read =
        append_assoc f (take n rest) (drop n rest ++ u)
        ∙ ap (λ x. f ++ x)
            (sym (append_assoc (take n rest) (drop n rest) u)
              ∙ ap (λ x. x ++ u) (take-append-drop n rest))
        ∙ level.read;
    kept = level.kept ∙ sym (append-taken n f rest);
    looked = sym (append_assoc sc b (take n rest)) ∙ ap (λ x. x ++ take n rest) level.looked;
    emptied = λ e. cc;
    staged = Staged-moves g u u sc false (piping rest piece) _ refl refl level.staged;
  }
  step-Level s t (scans n p u l f b sc c g) level = record {
    read = level.read;
    kept = level.kept;
    looked = append-taken n sc b ∙ level.looked;
    emptied = λ e. cc;
    staged = Staged-scans g u sc _ c level.staged;
  }
  step-Level s t (pipes p u piece l f b sc d g) level = record {
    read = level.read;
    kept = level.kept;
    looked = level.looked;
    emptied = level.emptied;
    staged = Staged-moves g u u sc d (piping [] piece) _ refl refl level.staged;
  }
  step-Level s t (logs p u piece l f b sc d g) level = record {
    read = level.read;
    kept = append-nil (l ++ piece) ∙ level.kept;
    looked = level.looked;
    emptied = level.emptied;
    staged = Staged-moves g u u sc d (logging piece) _ refl refl level.staged;
  }
  step-Level s t (log_fails n p u piece l f b sc d g) level = record {
    read = level.read;
    kept = append-taken n l piece ∙ level.kept;
    looked = level.looked;
    emptied = level.emptied;
    staged = Staged-moves g u u sc d (logging piece) _ refl refl level.staged;
  }
  step-Level s t (copied p l f b sc d) level = record {
    read = level.read;
    kept = level.kept;
    looked = level.looked;
    emptied = level.emptied;
    staged = (λ e. refl, level.staged.1);
  }
  step-Level s t (closes p u l f b sc c d over) level = record {
    read = level.read;
    kept = level.kept;
    looked = level.looked;
    emptied = level.emptied;
    staged = (level.staged.0, over);
  }
  step-Level s t (scan_ends p u l f sc c empty) level = record {
    read = level.read;
    kept = level.kept;
    looked = level.looked;
    emptied = λ e. refl;
    staged = level.staged;
  }
  step-Level s t (judges p u l f b sc c) level = record {
    read = level.read;
    kept = level.kept;
    looked = level.looked;
    emptied = level.emptied;
    staged = (level.staged.0, level.staged.1, refl, refl);
  }

  pub Reached-Level : (s : Streams) → Reached reports timing end s → Level s
  Reached-Level _ begin = record {
    read = refl;
    kept = refl;
    looked = refl;
    emptied = λ e. refl;
    staged = (refl, refl);
  }
  Reached-Level t (step s _ reached m) = step-Level s t m (Reached-Level s reached)

  -- The texts of a run that is over.
  over-Level :
      (p u l f s : Text) (c : Copier)
      → is_over c ≡ true
      → (is_finished c ≡ true → u ≡ [])
      → f ++ (in_pipe c ++ u) ≡ p
      → l ++ unlogged c ≡ f ++ in_pipe c
      → s ≡ f
      → (p ≡ (if is_failed c then s ++ u else s))
        × (s ≡ (if is_failed c then l ++ unlogged c else l))
  over-Level p u l f s finished over all read kept same = (
    sym read ∙ ap (λ x. f ++ x) (all refl) ∙ append-nil f ∙ sym same,
    same ∙ sym (append-nil f) ∙ sym kept ∙ append-nil l,
  )
  over-Level p u l f s (failed lost) over all read kept same =
      (sym read ∙ ap (λ x. x ++ u) (sym same), same ∙ sym (append-nil f) ∙ sym kept)
  over-Level p u l f s waiting over all read kept same = cc
  over-Level p u l f s (piping rest piece) over all read kept same = cc
  over-Level p u l f s (logging piece) over all read kept same = cc

  -- In every order of printing, copying, reading and scanning: a verdict is that on the text that was
  -- scanned. This is all that steamcmd printed, and just what the task's log holds, unless a write to the
  -- log failed; then it is what the log holds with the part that could not be written, and what was
  -- printed later is left out.
  pub Reached-judged :
      (s : Streams) (v : InstallRun)
      → Reached reports timing end s
      → s.stage ≡ judged v
      → (v ≡ run_install reports timing s.scanned end)
        × (s.printed ≡ (if is_failed s.copier then s.scanned ++ s.unread else s.scanned))
        × (s.scanned ≡ (if is_failed s.copier then s.log ++ unlogged s.copier else s.log))
  Reached-judged s v reached e =
      let level = Reached-Level s reached in
      let (all, over, done, same) =
        subst (λ g. Staged g s.copier s.unread s.scan_done s.scanned) e level.staged in
      let (all_printed, all_logged) =
        over-Level s.printed s.unread s.log s.fetched s.scanned s.copier over all level.read
          level.kept
          (sym (append-nil s.scanned)
            ∙ ap (λ x. s.scanned ++ x) (sym (level.emptied done))
            ∙ level.looked) in
      (same, all_printed, all_logged)
