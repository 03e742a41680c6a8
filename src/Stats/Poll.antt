-- ===== src/Stats/Poll.antt =====
-- driver/stats.go, `pollStats`, and driver/lifecycle.go, `TaskStats`: the
-- reports that are made of a task while it runs.
use nomad_driver_steamcmd.Base.{
  ℕ, zero, suc, nat_eq, ℤ, pos, negsuc, Text, Bool, true, false, Option, none, some, List, [], ◌∷◌,
  ◌++◌, if◌then◌else◌, Result, ok, err, task_not_found, ◌≡◌, refl, ap, ◌∙◌,
}
use nomad_driver_steamcmd.Process.{task_key}
use nomad_driver_steamcmd.Stats.{Floats, Usage, collect}
use nomad_driver_steamcmd.Stats.First.{collect-first}
use nomad_driver_steamcmd.Stats.Round.{
  UsageCollector, new_usage_collector, distinct, Round, round_members, collect_round,
}
use nomad_driver_steamcmd.Task.{Tasks, load}

-- What happens while `pollStats` waits: the context is cancelled, the task is done, or the ticker
-- ticks, when the task may have no process yet, and when the report may be taken or the context is
-- cancelled before that.
pub data Event (F : Type 0) : Type 0 where
  cancelled : Event F
  done : Event F
  ticked : Option ℕ → Round F → Bool → Event F

-- `drivers.TaskResourceUsage`
pub record TaskUsage (F : Type 0) : Type 0 where
  pub usage : Usage F
  pub timestamp : ℕ

-- The reports that were sent, and whether the channel is closed.
pub record Reports (F : Type 0) : Type 0 where
  pub sent : List (TaskUsage F)
  pub is_closed : Bool

module _ {F : Type 0} (floats : Floats F) (fuel : ℕ) where
  module _ (key : Text) (cores compute : ℕ) where
    -- The collector is made at the first tick that finds a process.
    unfoldable pub collector_at : ℕ → Option (UsageCollector F) → UsageCollector F
    unfolding new_usage_collector
    collector_at pid none = new_usage_collector key pid cores compute
    collector_at pid (some c) = c

    unfoldable pub report : Round F → Usage F → Reports F → Reports F
    report round usage later = record later {
      sent = record { usage = usage; timestamp = round.stamp } ∷ later.sent;
    }

    -- The loop of `pollStats`, with its variable `c`.
    unfoldable pub poll_from : List (Event F) → Option (UsageCollector F) → Reports F
    unfolding collector_at collect_round report
    poll_from [] c = record { sent = []; is_closed = false }
    poll_from (cancelled ∷ events) c = record { sent = []; is_closed = true }
    poll_from (done ∷ events) c = record { sent = []; is_closed = true }
    poll_from (ticked none round taken ∷ events) c = poll_from events c
    poll_from (ticked (some pid) round taken ∷ events) c =
        let (usage, c') = collect_round floats fuel round (collector_at pid c) in
        let later = poll_from events (some c') in
        if taken then report round usage later else record { sent = []; is_closed = true }

    -- `pollStats`
    unfoldable pub poll_stats : List (Event F) → Reports F
    unfolding poll_from
    poll_stats events = poll_from events none

    poll_from-closed :
        (events more : List (Event F)) (c : Option (UsageCollector F))
        → (poll_from events c).is_closed ≡ true
        → poll_from (events ++ more) c ≡ poll_from events c
    unfolding poll_from report
    poll_from-closed [] more c h = cc
    poll_from-closed (cancelled ∷ events) more c h = refl
    poll_from-closed (done ∷ events) more c h = refl
    poll_from-closed (ticked none round taken ∷ events) more c h = poll_from-closed events more c h
    poll_from-closed (ticked (some pid) round true ∷ events) more c h =
        let (usage, c') = collect_round floats fuel round (collector_at pid c) in
        ap (report round usage) (poll_from-closed events more (some c') h)
    poll_from-closed (ticked (some pid) round false ∷ events) more c h = refl

    -- Once the channel is closed, because the task is done or its caller has gone, nothing that happens
    -- later adds a report.
    pub poll_stats-closed :
        (events more : List (Event F))
        → (poll_stats events).is_closed ≡ true
        → poll_stats (events ++ more) ≡ poll_stats events
    unfolding poll_stats
    poll_stats-closed events more h = poll_from-closed events more none h

    poll_from-first :
        (events : List (Event F)) (first : TaskUsage F) (others : List (TaskUsage F))
        → (poll_from events none).sent ≡ first ∷ others
        → (first.usage.user_mode ≡ floats.zero_) × (first.usage.system_mode ≡ floats.zero_)
    unfolding poll_from report collector_at new_usage_collector collect_round
    poll_from-first [] first others h = cc
    poll_from-first (cancelled ∷ events) first others h = cc
    poll_from-first (done ∷ events) first others h = cc
    poll_from-first (ticked none round taken ∷ events) first others h =
        poll_from-first events first others h
    poll_from-first (ticked (some pid) round false ∷ events) first others h = cc
    poll_from-first (ticked (some pid) round true ∷ events) first others h =
        let c = collector_at pid none in
        let pids = distinct (round_members floats fuel round c).0 in
        let (user, system, _) = collect-first floats round.table cores compute round.now pids in
        let same : first.usage ≡ (collect floats cores compute round.table pids round.now []).0 =
          cc h in
        (ap (λ u. u.user_mode) same ∙ user, ap (λ u. u.system_mode) same ∙ system)

    -- The first report of a poll has no processor time, whatever the processes had used by then and
    -- however many ticks found no process before it.
    pub poll_stats-first :
        (events : List (Event F)) (first : TaskUsage F) (others : List (TaskUsage F))
        → (poll_stats events).sent ≡ first ∷ others
        → (first.usage.user_mode ≡ floats.zero_) × (first.usage.system_mode ≡ floats.zero_)
    unfolding poll_stats
    poll_stats-first events first others h = poll_from-first events first others h

  -- `TaskStats`, the reports of which come from the goroutine that it starts.
  unfoldable pub task_stats : Text → ℕ → ℕ → Tasks → List (Event F) → Result (Reports F)
  unfolding load task_key poll_stats
  task_stats id cores compute tasks events = elim (load id tasks) [
    | none ↦ err task_not_found
    | some h ↦ ok (poll_stats (task_key h.alloc_id h.name) cores compute events)
  ]

-- The interval of the ticker, in nanoseconds.
unfoldable pub ticker_interval : ℤ → ℤ
ticker_interval (pos zero) = pos 1000000000
ticker_interval (pos (suc n)) = pos (suc n)
ticker_interval (negsuc n) = pos 1000000000
