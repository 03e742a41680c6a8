-- ===== src/Steamcmd/Streams.antt =====
-- driver/steamcmd.go: the streams of `runInstall`. What steamcmd prints is copied to a pipe, which a
-- goroutine reads and scans, and then to the task's log (io.MultiWriter); the pipe holds no bytes of its
-- own, so a write to it waits until the goroutine has read them. The pipe is closed when `cmd.Run` has
-- returned, and the verdict waits for the goroutine (`<-scanDone`).
pub mod Verdicts
pub mod Ends
use nomad_driver_steamcmd.Base.{ℕ, Text, take, drop, Bool, true, false, List, [], ◌++◌, ◌≡◌}
use nomad_driver_steamcmd.Steamcmd.Install.{Timing, ProcessEnd, InstallRun, run_install}

-- What copies the output: it waits for some, it writes a piece to the pipe, of which a rest is still to
-- be read there, it writes a piece to the log; or it is over, since it found the end of the output, or
-- since a write to the log failed, which leaves a part of a piece unwritten.
pub data Copier : Type 0 where
  waiting finished : Copier
  piping : (rest piece : Text) → Copier
  logging : (piece : Text) → Copier
  failed : (lost : Text) → Copier

-- Where `runInstall` is: steamcmd runs, or has ended and `cmd.Run` waits for the copying; the pipe was
-- closed; the verdict is given.
pub data Stage : Type 0 where
  running exited closed : Stage
  judged : InstallRun → Stage

-- `printed` is all that steamcmd wrote, and `unread` what of it is still to be copied. `fetched` is all
-- that the goroutine has read from the pipe, `buffered` what of it is still in its buffer, and `scanned`
-- what of it was scanned.
pub record Streams : Type 0 where
  pub printed : Text
  pub unread : Text
  pub copier : Copier
  pub log : Text
  pub fetched : Text
  pub buffered : Text
  pub scanned : Text
  pub scan_done : Bool
  pub stage : Stage

abbrev pub streams : Text → Text → Copier → Text → Text → Text → Text → Bool → Stage → Streams
streams p u c l f b s d g = record {
  printed = p;
  unread = u;
  copier = c;
  log = l;
  fetched = f;
  buffered = b;
  scanned = s;
  scan_done = d;
  stage = g;
}

abbrev pub no_output : Streams
no_output = streams [] [] waiting [] [] [] [] false running

-- What a copier that is over can be.
abbrev pub is_over : Copier → Bool
is_over finished = true
is_over (failed lost) = true
is_over _ = false

-- What is left in the pipe.
abbrev pub in_pipe : Copier → Text
in_pipe (piping rest piece) = rest
in_pipe _ = []

pub data StreamStep (reports : Bool) (timing : Timing) (end : ProcessEnd)
    : Streams → Streams → Type 0 where
  prints :
      (piece p u l f b s : Text) (c : Copier) (d : Bool)
      → StreamStep reports timing end
          (streams p u c l f b s d running)
          (streams (p ++ piece) (u ++ piece) c l f b s d running)
  exits :
      (p u l f b s : Text) (c : Copier) (d : Bool)
      → StreamStep reports timing end
          (streams p u c l f b s d running)
          (streams p u c l f b s d exited)
  reads :
      (n : ℕ) (p u l f b s : Text) (d : Bool) (g : Stage)
      → StreamStep reports timing end
          (streams p u waiting l f b s d g)
          (streams p (drop n u) (piping (take n u) (take n u)) l f b s d g)
  fetches :
      (n : ℕ) (p u rest piece l f b s : Text) (g : Stage)
      → StreamStep reports timing end (streams p u (piping rest piece) l f b s false g) (
          streams p u
            (piping (drop n rest) piece)
            l
            (f ++ take n rest)
            (b ++ take n rest)
            s
            false
            g)
  scans :
      (n : ℕ) (p u l f b s : Text) (c : Copier) (g : Stage)
      → StreamStep reports timing end
          (streams p u c l f b s false g)
          (streams p u c l f (drop n b) (s ++ take n b) false g)
  pipes :
      (p u piece l f b s : Text) (d : Bool) (g : Stage)
      → StreamStep reports timing end
          (streams p u (piping [] piece) l f b s d g)
          (streams p u (logging piece) l f b s d g)
  logs :
      (p u piece l f b s : Text) (d : Bool) (g : Stage)
      → StreamStep reports timing end
          (streams p u (logging piece) l f b s d g)
          (streams p u waiting (l ++ piece) f b s d g)
  log_fails :
      (n : ℕ) (p u piece l f b s : Text) (d : Bool) (g : Stage)
      → StreamStep reports timing end
          (streams p u (logging piece) l f b s d g)
          (streams p u (failed (drop n piece)) (l ++ take n piece) f b s d g)
  copied :
      (p l f b s : Text) (d : Bool)
      → StreamStep reports timing end
          (streams p [] waiting l f b s d exited)
          (streams p [] finished l f b s d exited)
  closes :
      (p u l f b s : Text) (c : Copier) (d : Bool)
      → is_over c ≡ true
      → StreamStep reports timing end
          (streams p u c l f b s d exited)
          (streams p u c l f b s d closed)
  scan_ends :
      (p u l f s : Text) (c : Copier)
      → in_pipe c ≡ []
      → StreamStep reports timing end
          (streams p u c l f [] s false closed)
          (streams p u c l f [] s true closed)
  judges :
      (p u l f b s : Text) (c : Copier)
      → StreamStep reports timing end
          (streams p u c l f b s true closed)
          (streams p u c l f b s true (judged (run_install reports timing s end)))

-- Any order of such steps.
pub data Reached (reports : Bool) (timing : Timing) (end : ProcessEnd) : Streams → Type 0 where
  begin : Reached reports timing end no_output
  step :
      (s t : Streams)
      → Reached reports timing end s
      → StreamStep reports timing end s t
      → Reached reports timing end t
