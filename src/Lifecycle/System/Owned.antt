-- ===== src/Lifecycle/System/Owned.antt =====
-- Which processes are a task's own, and that no other is listed.
use nomad_driver_steamcmd.Base.{
  ℕ, ltb, nat_eq, Text, text_eq, ℤ, pos, Bool, Bool-cases, true, none, some, List, [],
  if◌then◌else◌, ◌≡◌, refl, arith, inl, inr,
}
use nomad_driver_steamcmd.Process.{proc_alive}
use nomad_driver_steamcmd.Process.Found.{is_in, is_in-kept, is_in-members_in}
use nomad_driver_steamcmd.Process.Known.{look-mine}
use nomad_driver_steamcmd.Process.Members.{
  Known, carries, kept, known_at, known_after, members_in, members, live_members, list_pids,
}
use nomad_driver_steamcmd.Process.Terminate.Keeps.{AllMine}
use nomad_driver_steamcmd.Process.Tree.{
  Descends, add_tree, add_tree-Descends, tree_of, is_in-append,
}
use nomad_driver_steamcmd.Stats.Round.{is_in-distinct}
use nomad_driver_steamcmd.Task.{TaskHandle}
use nomad_driver_steamcmd.Lifecycle.System.{System, Seen, collector_for, members_at, list_members}

module _ {S : Type 0} (system : System S) (fuel cores compute : ℕ) (mine : ℕ → Bool)
    (Safe : S → Type 0) where
  -- What is relied on: `Safe` is kept by signals to the task's own processes, by sleeping, by the run of
  -- a command, by the wait for the task and by its cancelling; and while it holds, what carries the
  -- task's marker, and what descends from its launched process, is its own.
  pub record Contained (await : TaskHandle → S → S) (h : TaskHandle) : Type 0 where
    pub marked :
        (s : S) (pid : ℕ)
        → Safe s
        → carries (system.proc_dir s) (collector_for system fuel cores compute h).marker pid ≡ true
        → mine pid ≡ true
    pub below :
        (s : S) (pid : ℕ)
        → Safe s
        → Descends (system.children s) pid (collector_for system fuel cores compute h).root_pid
        → mine pid ≡ true
    pub kills :
        (pid : ℕ) (sig : ℤ) (s : S)
        → Safe s
        → mine pid ≡ true
        → Safe (system.kill (pos pid) sig s).0
    pub sleeps : (s : S) → Safe s → Safe (system.sleep s)
    pub runs :
        (bin : Text) (args env : List Text) (s : S) → Safe s → Safe (system.run bin args env s)
    pub awaits : (s : S) → Safe s → Safe (await h s)
    pub cancels : (id : Text) (s : S) → Safe s → Safe (system.cancel id s)

  -- The state is safe, and the members that are known are the task's own.
  abbrev pub SafeSeen : Seen S → Type 0
  SafeSeen t = Safe t.0 × AllMine mine (members_in t.1)

  module _ (await : TaskHandle → S → S) (h : TaskHandle) (contained : Contained await h) where
    abbrev marker : Text
    marker = (collector_for system fuel cores compute h).marker

    abbrev root : ℕ
    root = (collector_for system fuel cores compute h).root_pid

    tree-AllMine :
        (s : S) (pid : ℕ)
        → Safe s
        → is_in pid (add_tree (system.children s) fuel root) ≡ true
        → mine pid ≡ true
    tree-AllMine s pid safe found =
        contained.below s pid safe (add_tree-Descends (system.children s) fuel pid _ found)

    known-AllMine :
        (s : S) (known : Known) (pids : List ℕ) (now : ℕ)
        → Safe s
        → AllMine mine (members_in known)
        → AllMine mine (members_in (known_after (system.proc_dir s) marker now known pids))
    known-AllMine s known pids now safe all pid found =
        let proc = system.proc_dir s in
        let same = is_in-members_in proc marker now known pids pid in
        look-mine proc mine marker now known pid (known_at pid known) refl
          (contained.marked s pid safe) all (ground (arith, same, found))

    members-AllMine :
        (s : S) (known : Known) (now : ℕ)
        → Safe s
        → AllMine mine (members_in known)
        → AllMine mine
            (members
              (system.proc_dir s)
              (tree_of (system.is_there s) (system.children s) fuel)
              marker
              root
              now
              known).0
    unfolding members tree_of is_in
    members-AllMine s known now safe all pid found =
        let proc = system.proc_dir s in
        let known' = known_after proc marker now known (list_pids proc) in
        let tree = add_tree (system.children s) fuel root in
        let launched : List ℕ =
          if ltb 0 root
          then elim (if system.is_there s root then some tree else none) as (λ _. List ℕ) [
            | some pids ↦ pids
            | none ↦ []
          ]
          else [] in
        elim (Bool-cases (is_in pid tree)) [
          | inl inside ↦ tree-AllMine s pid safe inside
          | inr outside ↦
              known-AllMine s known (list_pids proc) now safe all pid
                (ground (arith, is_in-append pid (members_in known') launched, found, outside))
        ]

    pub list_members-SafeSeen :
        (t : Seen S)
        → SafeSeen t
        → SafeSeen (list_members system fuel cores compute h t).1
          × AllMine mine (list_members system fuel cores compute h t).0
    unfolding list_members members_at live_members
    list_members-SafeSeen (s, known) (safe, all) = (
      (safe, known-AllMine s known _ _ safe all),
      λ pid found.
          let proc = system.proc_dir s in
          let pids =
            (members proc (tree_of (system.is_there s) (system.children s) fuel) marker root
              (system.now s) known).0 in
          let alive = λ (p : ℕ). proc_alive (proc.stat p) in
          members-AllMine s known (system.now s) safe all pid (
            ground (arith, found, is_in-distinct pid (kept alive pids), is_in-kept alive pids pid)),
    )
