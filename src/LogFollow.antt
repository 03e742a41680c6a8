-- ===== src/LogFollow.antt =====
-- driver/logfollow.go: the files of follow_logs, which are copied line by line into the task's stdout.
-- What the operating system answers at a poll is an argument, so that the files may change between
-- any two calls.
pub mod Lines
pub mod Steps
pub mod Closed
pub mod Appended
pub mod Polls
pub mod Shared
use nomad_driver_steamcmd.Base.{
  ℕ, zero, suc, ltb, leb, nat_eq, Text, text_eq, ◌==◌, length, Bool, true, false, not, ◌&&◌, ◌||◌,
  Option, none, some, List, [], ◌∷◌, ◌++◌, if◌then◌else◌, ◌+◌,
}
use nomad_driver_steamcmd.FilePath.{is_abs, join}

-- `resolveFollowPaths`
unfoldable pub resolve_follow_paths : Text → List Text → List Text
resolve_follow_paths install_dir [] = []
resolve_follow_paths install_dir (p ∷ paths) =
    let rest = resolve_follow_paths install_dir paths in
    if p == [] then rest else (if is_abs p then p else join (install_dir ∷ p ∷ [])) ∷ rest

-- What `os.Stat` tells of a file; `os.SameFile` compares inodes.
pub record FileInfo : Type 0 where
  pub inode : ℕ
  pub size : ℕ
  pub modified : ℕ

-- `snapshotFiles`, and `stale[p]`
unfoldable pub snapshot_files : (Text → Option FileInfo) → List Text → List (Text × FileInfo)
snapshot_files stat [] = []
snapshot_files stat (p ∷ paths) =
    let rest = snapshot_files stat paths in elim (stat p) [ some st ↦ (p, st) ∷ rest | none ↦ rest ]

unfoldable pub stale_at : Text → List (Text × FileInfo) → Option FileInfo
stale_at p [] = none
stale_at p ((q, st) ∷ snap) = let rest = stale_at p snap in if q == p then some st else rest

-- The text up to the first newline and with it, and what stands behind.
unfoldable pub first_line : Text → Option (Text × Text)
first_line [] = none
first_line (b ∷ s) =
    let later = first_line s in
    if b == 10
    then some (10 ∷ [], s)
    else elim later [ none ↦ none | some (line, rest) ↦ some (b ∷ line, rest) ]

-- The loop that writes the whole lines; what is left has no newline.
unfoldable pub write_lines : ℕ → Text → List Text × Text
unfolding first_line
write_lines zero partial = ([], partial)
write_lines (suc fuel) partial = elim (first_line partial) [
  | none ↦ ([], partial)
  | some (line, rest) ↦ let (lines, left) = write_lines fuel rest in (line ∷ lines, left)
]

-- One return of `f.Read`.
pub record Read : Type 0 where
  pub chunk : Text
  pub failed : Bool

-- `drain`, over what the reads return; a read behind the last one is at the end of the file.
unfoldable pub drain : List Read → Text → List Text × Text
unfolding write_lines
drain [] partial = ([], partial)
drain (r ∷ reads) partial =
    let (lines, left) = write_lines (length (partial ++ r.chunk)) (partial ++ r.chunk) in
    let (later, last) = drain reads left in
    if r.chunk == []
    then ([], partial)
    else if r.failed
    then (lines, left)
    else (lines ++ later, last)

-- The bytes that `drain` takes.
unfoldable pub taken : List Read → Text
taken [] = []
taken (r ∷ reads) =
    let rest = taken reads in
    if r.chunk == [] then [] else if r.failed then r.chunk else r.chunk ++ rest

-- The answers at one poll: `os.Stat` of the path, whether `os.Open` and the calls of `Seek` succeed,
-- `Stat` of the open file, and what reads from a position return.
pub record Look : Type 0 where
  pub path_stat : Option FileInfo
  pub opens : Bool
  pub seeks : Bool
  pub file_stat : Option FileInfo
  pub reads : ℕ → List Read

-- The variables of `followFile`: the position in the open file, if one is open, and the rest; and
-- what was written, one text for each write.
pub record Follower : Type 0 where
  pub position : Option ℕ
  pub stale : Option FileInfo
  pub partial : Text
  pub written : List Text

-- Where to begin in a file: nowhere if it is still the previous run's.
unfoldable pub offset_of : Option FileInfo → FileInfo → Option ℕ
offset_of none now = some 0
offset_of (some old) now =
    if old.inode == now.inode
    then if now.size == old.size && now.modified == old.modified
      then none
      else if leb old.size now.size
      then some old.size
      else some 0
    else some 0

-- Opening the file at its offset.
unfoldable pub begin_at : Look → FileInfo → Follower → Option ℕ
unfolding offset_of
begin_at look now st = elim (offset_of st.stale now) [
  | none ↦ none
  | some offset ↦ if look.opens && (not (ltb 0 offset) || look.seeks) then some offset else none
]

unfoldable pub is_truncated : Look → ℕ → Bool
is_truncated look pos = elim look.file_stat [ none ↦ false | some f ↦ look.seeks && ltb f.size pos ]

-- Replaced, or gone.
unfoldable pub is_replaced : Look → Bool
is_replaced look = elim look.path_stat [
  | none ↦ true
  | some p ↦ elim look.file_stat [ none ↦ false | some f ↦ not (f.inode == p.inode) ]
]

-- The part of `step` in which the file is open at a position.
unfoldable pub read_on : Look → ℕ → Follower → Follower
unfolding is_truncated is_replaced drain
read_on look pos st =
    let cut = is_truncated look pos in
    let from : ℕ = (if cut then 0 else pos) in
    let kept : Text = (if cut then [] else st.partial) in
    let (lines, left) = drain (look.reads from) kept in
    record st {
      position = if is_replaced look then none else some (from + length (taken (look.reads from)));
      partial = left;
      written = st.written ++ lines;
    }

-- `step`
unfoldable pub follow_step : Look → Follower → Follower
unfolding begin_at read_on
follow_step look st = elim st.position [
  | some pos ↦ read_on look pos st
  | none ↦ elim look.path_stat [
    | none ↦ st
    | some now ↦ elim (begin_at look now st) [
      | none ↦ st
      | some offset ↦ read_on look offset (record st { stale = none })
    ]
  ]
]

unfoldable pub follow_steps : List Look → Follower → Follower
unfolding follow_step
follow_steps [] st = st
follow_steps (look ∷ looks) st = follow_steps looks (follow_step look st)

-- What is left of a line when following ends is written with a newline.
unfoldable pub finish : Follower → List Text
finish st = if st.partial == [] then st.written else st.written ++ ((st.partial ++ (10 ∷ [])) ∷ [])

-- `followFile`, polling as often as there are answers, the last time for the final drain.
unfoldable pub follow_file : List Look → Option FileInfo → List Text
unfolding follow_steps finish
follow_file looks stale =
    finish
      (follow_steps looks (record { position = none; stale = stale; partial = []; written = [] }))
