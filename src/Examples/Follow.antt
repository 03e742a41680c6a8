-- ===== src/Examples/Follow.antt =====
-- One log file with one line, over the steps of the writer.
use nomad_driver_steamcmd.Base.{
  ℕ, zero, suc, nat_eq, Text, bytes, text_eq, text_beq, drop, All, true, false, none, some, ◌==◌,
  ◌++◌, if◌then◌else◌, List, [], ◌∷◌, ◌≡◌, refl, arith,
}
use nomad_driver_steamcmd.LogFollow.{Look, follow_file, stale_at, offset_of, taken}
use nomad_driver_steamcmd.LogFollow.Closed.{closed}
use nomad_driver_steamcmd.LogFollow.Polls.{Meets, opened}
use nomad_driver_steamcmd.LogFollow.Appended.{still}
use mathlib.Core.List.{append-nil}
use nomad_driver_steamcmd.LogFollow.Lines.{joined, IsLine}
use nomad_driver_steamcmd.LogFollow.Shared.{
  Followed, path_at, follow_logs, LockedWriter, with_texts, locks, writes, unlocks, Written, begin,
  then_step, texts, texts_of, follow_logs-IsMerge,
}

abbrev one_look : Look
one_look = record {
  path_stat = some (record { inode = 1; size = 2; modified = 0 });
  opens = true;
  seeks = true;
  file_stat = some (record { inode = 1; size = 2; modified = 0 });
  reads = λ pos. record { chunk = drop pos (bytes "a\n"); failed = false } ∷ [];
}

abbrev paths : List Followed
paths = (bytes "/srv/log", one_look ∷ []) ∷ []

abbrev start : ℕ → List Text
start = follow_logs paths []

abbrev left : ℕ → List Text
left = with_texts 0 [] start

abbrev last : LockedWriter
last = record { log = bytes "a\n"; holder = none; to_write = left }

one_line : start 0 ≡ bytes "a\n" ∷ []
unfolding follow_logs follow_file text_beq
one_line = refl

written : Written start last
written =
    then_step _ last
      (then_step _ _
        (then_step _ _ (then_step _ _ begin (locks 0 (bytes "a\n") [] [] start one_line))
          (writes 0 b'a' (bytes "\n") [] left))
        (writes 0 10 [] (bytes "a") left))
      (unlocks 0 (bytes "a\n") left)

all_written : (i : ℕ) → left i ≡ []
unfolding follow_logs with_texts
all_written zero = refl
all_written (suc i) = ground arith

one_look-Meets : Meets none (one_look ∷ []) 0 (bytes "a\n")
unfolding offset_of taken text_beq
one_look-Meets =
    opened 1 0 (bytes "a\n") (bytes "a\n") one_look []
      (record {
        modified = 0;
        path_seen = refl;
        file_seen = refl;
        can_open = refl;
        can_seek = refl;
        all_read = λ pos h. all_of (drop pos (bytes "a\n"));
      })
      refl (still (bytes "a\n"))
  where
    all_of : (t : Text) → (if t == [] then [] else t ++ []) ≡ t
    all_of [] = refl
    all_of (b ∷ t) = append-nil (b ∷ t)

first_only :
    (i : ℕ)
    → (i == 0) ≡ true
    → Meets (stale_at (path_at i paths).0 []) (path_at i paths).1 0 (bytes "a\n")
unfolding stale_at
first_only zero h = one_look-Meets
first_only (suc i) h = absurd (ground (arith, h))

follow_logs-IsMerge_example :
    (ws : List (ℕ × Text)) × (bytes "a\n" ≡ joined (texts ws))
    × All IsLine (texts ws)
    × ((i : ℕ) → texts_of i ws ≡ follow_logs paths [] i)
    × ((i : ℕ)
        → joined (texts_of i ws)
          ≡ (if i == 0 then closed (drop 0 (bytes "a\n")) else joined (follow_logs paths [] i)))
follow_logs-IsMerge_example =
    follow_logs-IsMerge paths [] last (λ i. i == 0) (λ i. 0) (λ i. bytes "a\n") written refl
      all_written first_only
