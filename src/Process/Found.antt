-- ===== src/Process/Found.antt =====
-- The processes that are found by a marker.
use mathlib.Core.List.{append-nil}
use nomad_driver_steamcmd.Base.{
  ℕ, ltb, nat_eq, nat_beq_iff, Text, ◌==◌, Bool, Bool-cases, true, false, not, ◌&&◌, ◌||◌, Option,
  none, some, List, [], ◌∷◌, ◌≡◌, ◌≢◌, ◌↔◌, ◌-◌, refl, ap, ◌∙◌, arith, inl, inr,
}
use nomad_driver_steamcmd.Process.{proc_alive}
use nomad_driver_steamcmd.Process.Members.{
  ProcDir, list_pids, carries, is_found, kept, find_marked, MemberState, Known, known_at, look,
  known_after, is_fresh, members_in, members, non_member_recheck,
}

unfoldable pub is_in : ℕ → List ℕ → Bool
is_in pid [] = false
is_in pid (p ∷ pids) = p == pid || is_in pid pids

pub is_in-kept :
    (test : ℕ → Bool) (pids : List ℕ) (pid : ℕ)
    → is_in pid (kept test pids) ≡ (is_in pid pids && test pid)
unfolding is_in kept
is_in-kept test [] pid = refl
is_in-kept test (p ∷ pids) pid = elim (Bool-cases (p == pid)) [
  | inl same ↦ ground (arith, is_in-kept test pids pid, ap test ((nat_beq_iff p pid).0 same))
  | inr other ↦ ground (arith, is_in-kept test pids pid)
]

is_found_iff :
    (proc : ProcDir) (marker : Text) (self pid : ℕ)
    → (is_found proc marker self pid ≡ true)
      ↔ ((pid ≢ self) × (proc_alive (proc.stat pid) ≡ true) × (carries proc marker pid ≡ true))
unfolding is_found
is_found_iff proc marker self pid = (
  λ h. (λ e. ground (arith, nat_beq_iff pid self, e), ground arith, ground arith),
  λ (other, alive, marked). ground (arith, nat_beq_iff pid self, other, alive, marked),
)

-- A process is found exactly if it is listed, alive and not the driver itself, and its environment
-- can be read and carries the marker.
find_marked-is_in :
    (proc : ProcDir) (marker : Text) (self pid : ℕ)
    → (is_in pid (find_marked proc marker self) ≡ true) ↔ (
        (is_in pid (list_pids proc) ≡ true)
        × (pid ≢ self)
        × (proc_alive (proc.stat pid) ≡ true)
        × (carries proc marker pid ≡ true))
unfolding find_marked
find_marked-is_in proc marker self pid =
    let both = is_in-kept (is_found proc marker self) (list_pids proc) pid in
    let found = is_found_iff proc marker self pid in
    (
      λ h. let test = found.0 (ground arith) in (ground arith, test.0, test.1, test.2),
      λ (listed, other, alive, marked). ground (arith, listed, found.1 (other, alive, marked)),
    )

pub is_in-members_in :
    (proc : ProcDir) (marker : Text) (now : ℕ) (known : Known) (pids : List ℕ) (pid : ℕ)
    → is_in pid (members_in (known_after proc marker now known pids))
      ≡ (is_in pid pids && (look proc marker now known pid).member)
unfolding is_in known_after members_in
is_in-members_in proc marker now known [] pid = refl
is_in-members_in proc marker now known (p ∷ pids) pid = elim (Bool-cases (p == pid)) [
  | inl same ↦ ground (
    arith,
    is_in-members_in proc marker now known pids pid,
    ap (λ k. (look proc marker now known k).member) ((nat_beq_iff p pid).0 same),
  )
  | inr other ↦ ground (arith, is_in-members_in proc marker now known pids pid)
]

pub look-member :
    (proc : ProcDir) (marker : Text) (now : ℕ) (known : Known) (pid : ℕ)
    → (o : Option MemberState) → known_at pid known ≡ o
    → (look proc marker now known pid).member ≡ elim o [
      | none ↦ carries proc marker pid
      | some st ↦
          st.member || (not (ltb (now - st.checked) non_member_recheck) && carries proc marker pid)
    ]
unfolding look is_fresh
look-member proc marker now known pid none q = ground arith
look-member proc marker now known pid (some st) q = ground arith

-- Without a launched process, the members are the listed processes that carry the marker, as far as
-- an earlier look does not count: a member stays one, and one that was none is looked at again after
-- a minute.
pub members-is_in :
    (proc : ProcDir) (tree : ℕ → Option (List ℕ)) (marker : Text) (now : ℕ) (known : Known)
    (pid : ℕ)
    → is_in pid (members proc tree marker 0 now known).0 ≡ (
        is_in pid (list_pids proc) && elim (known_at pid known) [
          | none ↦ carries proc marker pid
          | some st ↦
              st.member
              || (not (ltb (now - st.checked) non_member_recheck) && carries proc marker pid)
        ])
unfolding members
members-is_in proc tree marker now known pid =
    ap (is_in pid) (append-nil (members_in (known_after proc marker now known (list_pids proc))))
    ∙ is_in-members_in proc marker now known (list_pids proc) pid
    ∙ ap (λ b. is_in pid (list_pids proc) && b)
        (look-member proc marker now known pid (known_at pid known) refl)
