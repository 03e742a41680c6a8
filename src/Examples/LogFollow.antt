-- ===== src/Examples/LogFollow.antt =====
-- A log file that grows, and one that is replaced.
use nomad_driver_steamcmd.Base.{
  ℕ, nat_eq, Text, bytes, text_eq, text_beq, ◌==◌, length, drop, true, false, none, some, List, [],
  ◌∷◌, ◌++◌, if◌then◌else◌, ◌≡◌, refl,
}
use mathlib.Core.List.{append-nil}
use nomad_driver_steamcmd.LogFollow.{FileInfo, Look, Read, drain, taken, follow_file, offset_of}
use nomad_driver_steamcmd.LogFollow.Lines.{joined}
use nomad_driver_steamcmd.LogFollow.Appended.{Shows, still, grown}
use nomad_driver_steamcmd.LogFollow.Polls.{Meets, untouched, opened, follow_file-closed}
use nomad_driver_steamcmd.LogFollow.Closed.{closed}

abbrev two_reads : List Read
two_reads =
    record { chunk = bytes "b\nc"; failed = false }
    ∷ record { chunk = bytes "d\ne"; failed = false }
    ∷ []

drained : drain two_reads (bytes "a") ≡ (bytes "ab\n" ∷ bytes "cd\n" ∷ [], bytes "e")
unfolding drain text_beq
drained = refl

-- A look at a file of which each read returns all that there is.
abbrev shown : ℕ → Text → Look
shown id content =
    let now : FileInfo = record { inode = id; size = length content; modified = 0 } in
    record {
      path_stat = some now;
      opens = true;
      seeks = true;
      file_stat = some now;
      reads = λ pos. record { chunk = drop pos content; failed = false } ∷ [];
    }

shown-Shows : (id : ℕ) (content : Text) → Shows id content (shown id content)
unfolding taken text_beq
shown-Shows id content = record {
  modified = 0;
  path_seen = refl;
  file_seen = refl;
  can_open = refl;
  can_seek = refl;
  all_read = λ pos h. whole (drop pos content);
}
  where
    whole : (t : Text) → (if t == [] then [] else t ++ []) ≡ t
    whole [] = refl
    whole (b ∷ t) = append-nil (b ∷ t)

abbrev first : Text
first = bytes "one\ntw"

abbrev second : Text
second = bytes "one\ntwo"

-- What an earlier run left behind, untouched at the first poll; then this run appends to it.
abbrev left_over : Text
left_over = bytes "old\n"

abbrev before : FileInfo
before = record { inode = 1; size = 4; modified = 0 }

abbrev appended : Text
appended = bytes "old\none\ntw"

abbrev finished : Text
finished = bytes "old\none\ntwo"

abbrev polls : List Look
polls = shown 1 left_over ∷ shown 1 appended ∷ shown 1 finished ∷ []

polls-Meets : Meets (some before) polls 4 finished
unfolding offset_of
polls-Meets =
    untouched 4 finished (shown 1 left_over) (shown 1 appended ∷ shown 1 finished ∷ []) before refl
      refl
      (opened 1 4 appended finished (shown 1 appended) (shown 1 finished ∷ [])
        (shown-Shows 1 appended) refl
        (grown appended (bytes "o") finished finished (shown 1 finished) [] refl
          (shown-Shows 1 finished) (still finished)))

follow_file-closed_example : joined (follow_file polls (some before)) ≡ bytes "one\ntwo\n"
unfolding closed
follow_file-closed_example = follow_file-closed (some before) polls 4 finished polls-Meets

-- The file is read when its path already leads to another file, in which it ends without a newline.
abbrev replaced : Look
replaced = record (shown 1 first) {
  path_stat = some (record { inode = 2; size = 4; modified = 1 });
}

-- The end of the old file and the start of the new one come out as one line.
joined_lines :
    follow_file (shown 1 first ∷ replaced ∷ shown 2 (bytes "new\n") ∷ []) none
    ≡ bytes "one\n" ∷ bytes "twnew\n" ∷ []
unfolding follow_file text_beq taken
joined_lines = refl
