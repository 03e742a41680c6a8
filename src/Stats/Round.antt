-- ===== src/Stats/Round.antt =====
-- driver/stats.go, `newUsageCollector` and `collect` with its call of `members`: one round of sampling.
use nomad_driver_steamcmd.Base.{
  ℕ, nat_eq, nat_beq_iff, ◌==◌, ◌+◌, ◌%◌, ◌^◌, Text, Bool, Bool-cases, Option, List, [], ◌∷◌,
  if◌then◌else◌, ◌≡◌, refl, ap, arith, inl, inr,
}
use nomad_driver_steamcmd.Process.{task_marker}
use nomad_driver_steamcmd.Process.Found.{is_in}
use nomad_driver_steamcmd.Process.Members.{ProcDir, Known, members}
use nomad_driver_steamcmd.Process.Tree.{tree_of}
use nomad_driver_steamcmd.Stats.{Floats, ProcTable, Samples, Usage, collect}
use nomad_driver_steamcmd.Stats.First.{resident_sum, collect-memory}

-- `usageCollector`, of which `marker`, `root` and the node's processors stay the same.
pub record UsageCollector (F : Type 0) : Type 0 where
  pub marker : Text
  pub root_pid : ℕ
  pub cores : ℕ
  pub compute : ℕ
  pub prev : Samples F
  pub known : Known

-- `newUsageCollector`
unfoldable pub new_usage_collector : {F : Type 0} → Text → ℕ → ℕ → ℕ → UsageCollector F
unfolding task_marker
new_usage_collector key root cores compute = record {
  marker = task_marker key;
  root_pid = root;
  cores = cores;
  compute = compute;
  prev = [];
  known = [];
}

-- The members as a set.
unfoldable pub distinct : List ℕ → List ℕ
unfolding is_in
distinct [] = []
distinct (pid ∷ pids) = let rest = distinct pids in if is_in pid rest then rest else pid ∷ rest

-- What one round meets: the clock, twice, the files of /proc, whether gopsutil finds the launched
-- process, the children it tells, and what it tells of each process; and the time of the report.
pub record Round (F : Type 0) : Type 0 where
  pub now : ℕ
  pub now_again : ℕ
  pub proc : ProcDir
  pub is_there : ℕ → Bool
  pub children : ℕ → Option (List ℕ)
  pub table : ProcTable F
  pub stamp : ℕ

-- How often a process is in a list.
unfoldable pub count : ℕ → List ℕ → ℕ
count pid [] = 0
count pid (p ∷ pids) = let rest = count pid pids in if p == pid then 1 + rest else rest

pub is_in-distinct : (pid : ℕ) (pids : List ℕ) → is_in pid (distinct pids) ≡ is_in pid pids
unfolding is_in distinct
is_in-distinct pid [] = refl
is_in-distinct pid (p ∷ pids) = elim (Bool-cases (p == pid)) [
  | inl same ↦ ground (
    arith,
    is_in-distinct pid pids,
    ap (λ q. is_in q (distinct pids)) ((nat_beq_iff p pid).0 same),
  )
  | inr other ↦ ground (arith, is_in-distinct pid pids)
]

count-distinct :
    (pid : ℕ) (pids : List ℕ) → count pid (distinct pids) ≡ (if is_in pid pids then 1 else 0)
unfolding count is_in distinct
count-distinct pid [] = refl
count-distinct pid (p ∷ pids) = elim (Bool-cases (p == pid)) [
  | inl same ↦ ground (
    arith,
    count-distinct pid pids,
    is_in-distinct pid pids,
    ap (λ q. is_in q (distinct pids)) ((nat_beq_iff p pid).0 same),
  )
  | inr other ↦ ground (arith, count-distinct pid pids)
]

module _ {F : Type 0} (floats : Floats F) (fuel : ℕ) where
  -- The processes of the task in a round, with what is known of all of them.
  unfoldable pub round_members : Round F → UsageCollector F → List ℕ × Known
  unfolding members tree_of
  round_members round c =
      members round.proc (tree_of round.is_there round.children fuel) c.marker c.root_pid
        round.now_again c.known

  -- `collect`, with its call of `members`.
  unfoldable pub collect_round : Round F → UsageCollector F → Usage F × UsageCollector F
  unfolding round_members distinct collect
  collect_round round c =
      let (pids, known) = round_members round c in
      let (usage, prev) =
        collect floats c.cores c.compute round.table (distinct pids) round.now c.prev in
      (usage, record c { prev = prev; known = known })

  -- Every process of the task is counted once in a round, also one that both carries the marker and
  -- descends from the launched process: the memory of the report is the sum, in 64 bits, over a list
  -- that holds each member once and nothing else.
  pub collect_round-once :
      (round : Round F) (c : UsageCollector F)
      → let pids = (round_members round c).0 in
        ((collect_round round c).0.memory
          ≡ resident_sum floats round.table (distinct pids) % 2 ^ 64)
        × ((pid : ℕ) → count pid (distinct pids) ≡ (if is_in pid pids then 1 else 0))
  unfolding collect_round
  collect_round-once round c =
      let pids = (round_members round c).0 in
      (
        collect-memory floats round.table c.cores c.compute round.now (distinct pids) c.prev,
        λ pid. count-distinct pid pids,
      )
