-- ===== src/Process.antt =====
-- driver/stats.go and driver/reap.go: which processes belong to a task, told by a marker in their
-- environment, and whether they are alive.
pub mod Marker
pub mod Status
pub mod Members
pub mod Found
pub mod Terminate
pub mod Tree
pub mod Known
use nomad_driver_steamcmd.Base.{
  ℕ, zero, suc, nat_eq, Text, bytes, text_eq, ◌==◌, has_prefix, length, drop, Bool, true, false,
  not, ◌&&◌, ◌||◌, Option, none, some, List, [], ◌∷◌, ◌++◌, if◌then◌else◌, Result, ok, err,
}

-- `taskMarkerEnv`
abbrev pub task_marker_env : Text
task_marker_env = bytes "STEAMCMD_TASK_ID"

unfoldable pub task_key : Text → Text → Text
task_key alloc_id task_name = alloc_id ++ (b'/' ∷ task_name)

unfoldable pub task_marker : Text → Text
task_marker key = task_marker_env ++ (b'=' ∷ key)

-- An entry up to the first NUL, and what comes behind the NUL if there is one.
unfoldable pub cut_entry : Text → Text × Option Text
cut_entry [] = ([], none)
cut_entry (b ∷ environ) =
    let (entry, rest) = cut_entry environ in
    if b == 0 then ([], some environ) else (b ∷ entry, rest)

-- The byte of an entry that stands right behind the marker.
unfoldable pub byte_at : ℕ → Text → Option ℕ
byte_at n [] = none
byte_at zero (b ∷ s) = some b
byte_at (suc n) (b ∷ s) = byte_at n s

-- The marker itself, or, as v0.4.3 wrote it, followed by a slash and a hash.
unfoldable pub is_marked : Text → Text → Bool
unfolding byte_at
is_marked entry marker =
    entry == marker
    || (has_prefix entry marker
        && elim (byte_at (length marker) entry) [ some b ↦ b == b'/' | none ↦ false ])

unfoldable pub has_marker_from : ℕ → Text → Text → Bool
unfolding cut_entry is_marked
has_marker_from zero environ marker = false
has_marker_from (suc fuel) environ marker =
    let (entry, rest) = cut_entry environ in
    let later : Bool = elim rest [
      | some behind ↦ has_marker_from fuel behind marker
      | none ↦ false
    ] in
    if environ == [] then false else is_marked entry marker || later

-- `hasMarker`; each turn of its loop takes a byte at least.
unfoldable pub has_marker : Text → Text → Bool
unfolding has_marker_from
has_marker environ marker = has_marker_from (length environ) environ marker

-- What stands behind the last `)`, if there is one.
unfoldable pub behind_last : ℕ → Text → Option Text
behind_last b [] = none
behind_last b (a ∷ s) =
    let later = behind_last b s in
    elim later [ some rest ↦ some rest | none ↦ if a == b then some s else none ]

-- The state of a process is the second byte behind the last `)` of its `stat` file.
unfoldable pub state_byte : Text → Option ℕ
unfolding behind_last byte_at
state_byte s = elim (behind_last b')' s) [ some rest ↦ byte_at 1 rest | none ↦ none ]

-- `procAlive`, of the contents of the `stat` file.
unfoldable pub proc_alive : Result Text → Bool
unfolding state_byte
proc_alive (err e) = false
proc_alive (ok s) = elim (state_byte s) [
  | some state ↦ not (state == b'Z' || state == b'X')
  | none ↦ false
]
