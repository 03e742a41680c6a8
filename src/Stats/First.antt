-- ===== src/Stats/First.antt =====
-- What the first samples of a task tell.
use nomad_driver_steamcmd.Base.{
  ℕ, nat_eq, ◌+◌, ◌%◌, ◌^◌, ◌<◌, none, some, List, [], ◌∷◌, if◌then◌else◌, ◌≡◌, refl, ap, ◌∙◌,
  arith,
}
use nomad_driver_steamcmd.Stats.{
  Floats, ProcTable, Samples, Totals, sample_of, add_share, add_cpu, add_memory, collect_from,
  no_totals, usage_of, collect,
}

module _ {F : Type 0} (floats : Floats F) (table : ProcTable F) where
  -- The resident memory of a process that is there.
  unfoldable pub resident_of : ℕ → ℕ
  resident_of pid =
      if table.is_there pid then elim (table.resident pid) [ none ↦ 0 | some n ↦ n ] else 0

  unfoldable pub resident_sum : List ℕ → ℕ
  unfolding resident_of
  resident_sum [] = 0
  resident_sum (pid ∷ pids) = resident_of pid + resident_sum pids

  -- The totals after one process.
  abbrev after : Samples F → ℕ → ℕ → Totals F → Totals F
  after prev now pid t =
      if table.is_there pid
      then add_memory floats table pid (add_cpu floats table prev now pid t)
      else t

  add_cpu-rss :
      (prev : Samples F) (now pid : ℕ) (t : Totals F)
      → (add_cpu floats table prev now pid t).rss ≡ t.rss
  unfolding add_cpu add_share
  add_cpu-rss prev now pid t = ground arith

  after-rss :
      (prev : Samples F) (now pid : ℕ) (t : Totals F)
      → t.rss < 2 ^ 64
      → (after prev now pid t).rss ≡ (t.rss + resident_of pid) % 2 ^ 64
  unfolding add_memory resident_of
  after-rss prev now pid t small = ground (arith, add_cpu-rss prev now pid t, small)

  collect_from-rss :
      (prev : Samples F) (now : ℕ) (pids : List ℕ) (t : Totals F)
      → t.rss < 2 ^ 64
      → (collect_from floats table prev now pids t).rss ≡ (t.rss + resident_sum pids) % 2 ^ 64
  unfolding collect_from resident_sum
  collect_from-rss prev now [] t small = omega (arith, small)
  collect_from-rss prev now (pid ∷ pids) t small =
      let one = after-rss prev now pid t small in
      omega (arith, collect_from-rss prev now pids (after prev now pid t) (omega (arith, one)), one)

  after-first :
      (now pid : ℕ) (t : Totals F)
      → ((after [] now pid t).user_pct ≡ t.user_pct) × ((after [] now pid t).sys_pct ≡ t.sys_pct)
  unfolding add_memory add_cpu add_share sample_of
  after-first now pid t = (ground arith, ground arith)

  collect_from-first :
      (now : ℕ) (pids : List ℕ) (t : Totals F)
      → ((collect_from floats table [] now pids t).user_pct ≡ t.user_pct)
        × ((collect_from floats table [] now pids t).sys_pct ≡ t.sys_pct)
  unfolding collect_from
  collect_from-first now [] t = (refl, refl)
  collect_from-first now (pid ∷ pids) t =
      let rest = collect_from-first now pids (after [] now pid t) in
      let one = after-first now pid t in (rest.0 ∙ one.0, rest.1 ∙ one.1)

  -- Whatever was sampled before, the memory is the sum of what the processes have resident.
  pub collect-memory :
      (cores compute now : ℕ) (pids : List ℕ) (prev : Samples F)
      → (collect floats cores compute table pids now prev).0.memory ≡ resident_sum pids % 2 ^ 64
  unfolding collect usage_of
  collect-memory cores compute now pids prev =
      let sum : 0 + resident_sum pids ≡ resident_sum pids = omega arith in
      collect_from-rss prev now pids (no_totals floats) (omega arith) ∙ ap (λ n. n % 2 ^ 64) sum

  -- The first samples of a task report no processor time, whatever its processes have used before,
  -- and the memory is the sum of what its processes have resident, in 64 bits.
  pub collect-first :
      (cores compute now : ℕ) (pids : List ℕ)
      → let usage = (collect floats cores compute table pids now []).0 in
        (usage.user_mode ≡ floats.zero_)
        × (usage.system_mode ≡ floats.zero_)
        × (usage.memory ≡ resident_sum pids % 2 ^ 64)
  unfolding collect usage_of
  collect-first cores compute now pids =
      let first = collect_from-first now pids (no_totals floats) in
      (first.0, first.1, collect-memory cores compute now pids [])
