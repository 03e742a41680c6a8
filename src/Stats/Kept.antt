-- ===== src/Stats/Kept.antt =====
-- The samples that are kept from one round to the next.
use nomad_driver_steamcmd.Base.{
  ℕ, nat_eq, nat_beq_iff, ◌==◌, Bool-cases, Option, none, some, List, [], ◌∷◌, if◌then◌else◌, ◌≡◌,
  refl, ap, arith, inl, inr,
}
use nomad_driver_steamcmd.Process.Found.{is_in}
use nomad_driver_steamcmd.Stats.{
  Floats, CpuSample, ProcTable, Samples, Totals, sample_of, add_share, add_cpu, add_memory,
  collect_from, no_totals, collect,
}

module _ {F : Type 0} (floats : Floats F) (table : ProcTable F) where
  -- The sample of a process that is taken now.
  unfoldable pub sample_at : ℕ → ℕ → Option (CpuSample F)
  sample_at now pid =
      let taken : Option (CpuSample F) = elim (table.cpu_times pid) [
        | none ↦ none
        | some (user, sys) ↦ some (record { user = user; sys = sys; at = now })
      ] in
      if table.is_there pid then taken else none

  -- The totals after one process.
  abbrev after : Samples F → ℕ → ℕ → Totals F → Totals F
  after prev now pid t =
      if table.is_there pid
      then add_memory floats table pid (add_cpu floats table prev now pid t)
      else t

  add_share-current :
      (o : Option (CpuSample F)) (s : CpuSample F) (t : Totals F)
      → (add_share floats o s t).current ≡ t.current
  unfolding add_share
  add_share-current none s t = refl
  add_share-current (some prev) s t = ground arith

  abbrev or_else : Option (CpuSample F) → Option (CpuSample F) → Option (CpuSample F)
  or_else none rest = rest
  or_else (some s) rest = some s

  -- The sample of one process is added.
  add_cpu-sample_of :
      (prev : Samples F) (now pid q : ℕ) (t : Totals F) (o : Option (F × F))
      → table.cpu_times pid ≡ o
      → sample_of q (add_cpu floats table prev now pid t).current
        ≡ elim o as (λ _. Option (CpuSample F)) [
          | none ↦ sample_of q t.current
          | some (user, sys) ↦
              if pid == q
              then some (record { user = user; sys = sys; at = now })
              else sample_of q t.current
        ]
  unfolding add_cpu sample_of
  add_cpu-sample_of prev now pid q t none e = rw (e, sample_of, add_cpu)
  add_cpu-sample_of prev now pid q t (some (user, sys)) e =
      let s : CpuSample F = record { user = user; sys = sys; at = now } in
      let kept =
        add_share-current (sample_of pid prev) s (record t { current = (pid, s) ∷ t.current }) in
      rw (e, sample_of, add_cpu) (ap (sample_of q) kept)

  after-sample_of :
      (prev : Samples F) (now pid q : ℕ) (t : Totals F)
      → sample_of q (after prev now pid t).current ≡ (
          if pid == q
          then or_else (sample_at now pid) (sample_of q t.current)
          else sample_of q t.current)
  unfolding add_memory sample_at
  after-sample_of prev now pid q t =
      ground (arith, add_cpu-sample_of prev now pid q t (table.cpu_times pid) refl)

  abbrev found : ℕ → ℕ → List ℕ → Option (CpuSample F) → Option (CpuSample F)
  found now q pids rest = if is_in q pids then or_else (sample_at now q) rest else rest

  collect_from-sample_of :
      (prev : Samples F) (now q : ℕ) (pids : List ℕ) (t : Totals F)
      → sample_of q (collect_from floats table prev now pids t).current
        ≡ found now q pids (sample_of q t.current)
  unfolding collect_from is_in
  collect_from-sample_of prev now q [] t = refl
  collect_from-sample_of prev now q (pid ∷ pids) t =
      let rest = collect_from-sample_of prev now q pids (after prev now pid t) in
      let one = after-sample_of prev now pid q t in
      elim (Bool-cases (pid == q)) [
        | inl same ↦ ground (arith, one, rest, ap (sample_at now) ((nat_beq_iff pid q).0 same))
        | inr other ↦ ground (arith, one, rest)
      ]

  -- The samples that are kept for the next round are those of this round: of each process of the task
  -- that is there and tells its times the sample taken now, and of no other process any, whatever
  -- was kept before.
  pub collect-sample_of :
      (cores compute now pid : ℕ) (pids : List ℕ) (prev : Samples F)
      → sample_of pid (collect floats cores compute table pids now prev).1
        ≡ (if is_in pid pids then sample_at now pid else none)
  unfolding collect sample_of
  collect-sample_of cores compute now pid pids prev =
      ground (arith, collect_from-sample_of prev now pid pids (no_totals floats))
