-- ===== src/Process/Members.antt =====
-- driver/reap.go and driver/stats.go: which processes of the machine belong to a task.
use nomad_driver_steamcmd.Base.{
  ℕ, ltb, nat_eq, Text, bytes, text_eq, read_digits, ◌==◌, Bool, false, not, ◌&&◌, ◌||◌, Option,
  none, some, List, [], ◌∷◌, ◌++◌, if◌then◌else◌, Result, ok, err, ◌-◌, ◌^◌,
}
use nomad_driver_steamcmd.Process.{has_marker, proc_alive}

-- The files of /proc: its entries, and the files `stat` and `environ` of a process.
pub record ProcDir : Type 0 where
  pub entries : Result (List Text)
  pub stat : ℕ → Result Text
  pub environ : ℕ → Result Text

-- `strconv.ParseInt` to 32 bits, of a positive number.
unfoldable pub positive : Text → Option ℕ
positive [] = none
positive (b ∷ s) = elim (read_digits 0 (b ∷ s)) [
  | none ↦ none
  | some n ↦ if ltb 0 n && ltb n (2 ^ 31) then some n else none
]

unfoldable pub pid_of : Text → Option ℕ
unfolding positive
pid_of [] = none
pid_of (b ∷ s) = if b == b'+' then positive s else positive (b ∷ s)

unfoldable pub pids_of : List Text → List ℕ
unfolding pid_of
pids_of [] = []
pids_of (name ∷ names) =
    let rest = pids_of names in elim (pid_of name) [ some pid ↦ pid ∷ rest | none ↦ rest ]

-- `listPIDs`
unfoldable pub list_pids : ProcDir → List ℕ
unfolding pids_of
list_pids proc = elim proc.entries [ ok names ↦ pids_of names | err e ↦ [] ]

-- Whether the environment of a process can be read and carries the marker.
unfoldable pub carries : ProcDir → Text → ℕ → Bool
carries proc marker pid = elim (proc.environ pid) [ ok env ↦ has_marker env marker | err e ↦ false ]

unfoldable pub is_found : ProcDir → Text → ℕ → ℕ → Bool
unfolding carries
is_found proc marker self pid =
    not (pid == self || not (proc_alive (proc.stat pid))) && carries proc marker pid

unfoldable pub kept : (ℕ → Bool) → List ℕ → List ℕ
kept test [] = []
kept test (pid ∷ pids) = let rest = kept test pids in if test pid then pid ∷ rest else rest

-- `findMarked`; `self` is the driver's own process.
unfoldable pub find_marked : ProcDir → Text → ℕ → List ℕ
unfolding kept is_found list_pids
find_marked proc marker self = kept (is_found proc marker self) (list_pids proc)

-- `supportComms`
unfoldable pub is_support : Text → Bool
is_support comm = comm == bytes "wineserver" || comm == bytes "Xvfb"

-- What is known of a process from an earlier look at its environment.
pub record MemberState : Type 0 where
  pub member : Bool
  pub checked : ℕ

-- `nonMemberRecheck`, in nanoseconds.
abbrev pub non_member_recheck : ℕ
non_member_recheck = 60000000000

-- `c.known[pid]`
abbrev pub Known : Type 0
Known = List (ℕ × MemberState)

unfoldable pub known_at : ℕ → Known → Option MemberState
known_at pid [] = none
known_at pid ((p, st) ∷ known) = let rest = known_at pid known in if p == pid then some st else rest

-- An entry may be relied on: a member stays one, and others are looked at again after a while.
unfoldable pub is_fresh : ℕ → MemberState → Bool
is_fresh now st = st.member || ltb (now - st.checked) non_member_recheck

-- What is known of a process after it was looked at.
unfoldable pub look : ProcDir → Text → ℕ → Known → ℕ → MemberState
unfolding carries known_at is_fresh
look proc marker now known pid =
    let seen : MemberState = record { member = carries proc marker pid; checked = now } in
    elim (known_at pid known) [ some st ↦ if is_fresh now st then st else seen | none ↦ seen ]

-- The loops of `members` over the processes: what is known of those that are alive, and of no other.
unfoldable pub known_after : ProcDir → Text → ℕ → Known → List ℕ → Known
unfolding look
known_after proc marker now known [] = []
known_after proc marker now known (pid ∷ pids) =
    (pid, look proc marker now known pid) ∷ known_after proc marker now known pids

unfoldable pub members_in : Known → List ℕ
members_in [] = []
members_in ((pid, st) ∷ known) =
    let rest = members_in known in if st.member then pid ∷ rest else rest

-- `members`: the marked processes and then the launched process with its descendants, which `tree`
-- lists if there is such a process. The set is a list, in which a process may be twice.
unfoldable pub members : ProcDir → (ℕ → Option (List ℕ)) → Text → ℕ → ℕ → Known → List ℕ × Known
unfolding known_after members_in list_pids
members proc tree marker root now known =
    let known' = known_after proc marker now known (list_pids proc) in
    let launched : List ℕ = elim (tree root) [ some pids ↦ pids | none ↦ [] ] in
    (members_in known' ++ (if ltb 0 root then launched else []), known')

-- `liveMembers`
unfoldable pub live_members :
    ProcDir → (ℕ → Option (List ℕ)) → Text → ℕ → ℕ → Known → List ℕ × Known
unfolding members kept
live_members proc tree marker root now known =
    let (pids, known') = members proc tree marker root now known in
    (kept (λ pid. proc_alive (proc.stat pid)) pids, known')
