-- ===== src/Stats.antt =====
-- driver/stats.go: what the processes of a task use. Floating-point numbers are a parameter `F` with
-- their arithmetic; a sample of the times of a process is one of its user and system seconds.
pub mod First
pub mod Kept
pub mod Round
pub mod Poll
use nomad_driver_steamcmd.Base.{
  ℕ, zero, suc, ltb, nat_eq, ◌==◌, ◌+◌, ◌-◌, ◌%◌, ◌^◌, Text, Bool, true, false, Option, none, some,
  List, [], ◌∷◌, if◌then◌else◌,
}

pub record Floats (F : Type 0) : Type 0 where
  pub zero_ : F
  pub plus : F → F → F
  pub minus : F → F → F
  pub times : F → F → F
  pub over : F → F → F
  pub hundred : F
  pub is_positive : F → Bool
  pub of_nat : ℕ → F
  pub in_seconds : ℕ → F

-- `cpuSample`
pub record CpuSample (F : Type 0) : Type 0 where
  pub user : F
  pub sys : F
  pub at : ℕ

-- What gopsutil tells of a process: whether it is there, its times and its resident memory.
pub record ProcTable (F : Type 0) : Type 0 where
  pub is_there : ℕ → Bool
  pub cpu_times : ℕ → Option (F × F)
  pub resident : ℕ → Option ℕ

-- `c.prev`
abbrev pub Samples : Type 0 → Type 0
Samples F = List (ℕ × CpuSample F)

-- `userPct`, `sysPct`, `rss` and `cur`.
pub record Totals (F : Type 0) : Type 0 where
  pub user_pct : F
  pub sys_pct : F
  pub rss : ℕ
  pub current : Samples F

-- `drivers.ResourceUsage`; the ticks are there if the number of cores is known.
pub record Usage (F : Type 0) : Type 0 where
  pub percent : F
  pub user_mode : F
  pub system_mode : F
  pub total_ticks : Option F
  pub memory : ℕ

unfoldable pub sample_of : {F : Type 0} → ℕ → Samples F → Option (CpuSample F)
sample_of pid [] = none
sample_of pid ((p, sample) ∷ samples) =
    let rest = sample_of pid samples in if p == pid then some sample else rest

module _ {F : Type 0} (floats : Floats F) where
  open floats use {zero_, plus, minus, times, over, hundred, is_positive, of_nat, in_seconds}

  -- A percentage with the share that a difference of times makes in `dt` seconds, if it is positive.
  unfoldable pub add_part : F → F → F → F
  add_part pct d dt = if is_positive d then plus pct (times (over d dt) hundred) else pct

  -- The percentages with those of one process, if an earlier sample of it is older.
  unfoldable pub add_share : Option (CpuSample F) → CpuSample F → Totals F → Totals F
  unfolding add_part
  add_share none s t = t
  add_share (some prev) s t =
      let dt = in_seconds (s.at - prev.at) in
      let user = minus s.user prev.user in
      let sys = minus s.sys prev.sys in
      if is_positive dt
      then record t { user_pct = add_part t.user_pct user dt; sys_pct = add_part t.sys_pct sys dt }
      else t

  unfoldable pub add_cpu : ProcTable F → Samples F → ℕ → ℕ → Totals F → Totals F
  unfolding add_share sample_of
  add_cpu table prev now pid t = elim (table.cpu_times pid) [
    | none ↦ t
    | some (user, sys) ↦
        let s : CpuSample F = record { user = user; sys = sys; at = now } in
        add_share (sample_of pid prev) s (record t { current = (pid, s) ∷ t.current })
  ]

  -- The sum is one of 64 bits.
  unfoldable pub add_memory : ProcTable F → ℕ → Totals F → Totals F
  add_memory table pid t = elim (table.resident pid) [
    | none ↦ t
    | some bytes ↦ record t { rss = (t.rss + bytes) % 2 ^ 64 }
  ]

  -- The loop of `collect` over the members, in the order in which the map happens to give them.
  unfoldable pub collect_from : ProcTable F → Samples F → ℕ → List ℕ → Totals F → Totals F
  unfolding add_cpu add_memory
  collect_from table prev now [] t = t
  collect_from table prev now (pid ∷ pids) t =
      collect_from table prev now pids
        (if table.is_there pid then add_memory table pid (add_cpu table prev now pid t) else t)

  abbrev pub no_totals : Totals F
  no_totals = record { user_pct = zero_; sys_pct = zero_; rss = 0; current = [] }

  unfoldable pub usage_of : ℕ → ℕ → Totals F → Usage F
  usage_of cores compute t =
      let total = plus t.user_pct t.sys_pct in
      record {
        percent = total;
        user_mode = t.user_pct;
        system_mode = t.sys_pct;
        total_ticks =
            if ltb 0 cores
            then some (over (times (over total hundred) (of_nat compute)) (of_nat cores))
            else none;
        memory = t.rss;
      }

  -- `collect`, for members each of which is there once: the usage, and the samples for the next time.
  unfoldable pub collect : ℕ → ℕ → ProcTable F → List ℕ → ℕ → Samples F → Usage F × Samples F
  unfolding collect_from usage_of
  collect cores compute table pids now prev =
      let t = collect_from table prev now pids no_totals in (usage_of cores compute t, t.current)
