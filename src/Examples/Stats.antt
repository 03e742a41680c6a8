-- ===== src/Examples/Stats.antt =====
-- Two processes, of which the first was not there before.
use nomad_driver_steamcmd.Base.{
  ℕ, ltb, nat_eq, ◌+◌, ◌-◌, ◌*◌, ◌/◌, ◌%◌, ◌^◌, bytes, text_beq, read_digits, ◌==◌, if◌then◌else◌,
  true, none, some, List, ok, [], ◌∷◌, ◌≡◌, refl,
}
use nomad_driver_steamcmd.Process.{has_marker}
use nomad_driver_steamcmd.Process.Found.{is_in}
use nomad_driver_steamcmd.Stats.{Floats, ProcTable, sample_of, collect}
use nomad_driver_steamcmd.Stats.First.{resident_sum}
use nomad_driver_steamcmd.Stats.Kept.{sample_at, collect-sample_of}
use nomad_driver_steamcmd.Stats.Round.{
  UsageCollector, new_usage_collector, distinct, Round, round_members, collect_round, count,
  collect_round-once,
}
use nomad_driver_steamcmd.Stats.Poll.{
  Event, done, ticked, TaskUsage, poll_from, poll_stats, poll_stats-first,
}

-- Whole numbers in place of floating-point ones.
abbrev whole : Floats ℕ
whole = record {
  zero_ = 0;
  plus = λ a b. a + b;
  minus = λ a b. a - b;
  times = λ a b. a * b;
  over = λ a b. a / b;
  hundred = 100;
  is_positive = λ a. ltb 0 a;
  of_nat = λ n. n;
  in_seconds = λ n. n / 1000000000;
}

abbrev table : ProcTable ℕ
table = record {
  is_there = λ pid. true;
  cpu_times = λ pid. some (pid, 1);
  resident = λ pid. some (1000 * pid);
}

collect-sample_of_example :
    sample_of 6 (collect whole 4 8000 table (5 ∷ 6 ∷ []) 9 []).1
    ≡ (if is_in 6 (5 ∷ 6 ∷ []) then sample_at whole table 9 6 else none)
collect-sample_of_example = collect-sample_of whole table 4 8000 9 6 (5 ∷ 6 ∷ []) []

-- A round in which the launched process 5 has a child 6 that carries the marker too.
abbrev round : Round ℕ
round = record {
  now = 9;
  now_again = 9;
  proc = record {
    entries = ok (bytes "5" ∷ bytes "6" ∷ []);
    stat = λ pid. ok (bytes "6 (game) S 1");
    environ = λ pid. ok (if pid == 6 then bytes "STEAMCMD_TASK_ID=a/game" else []);
  };
  is_there = λ pid. true;
  children = λ pid. if pid == 5 then some (6 ∷ []) else none;
  table = table;
  stamp = 3;
}

abbrev collector : UsageCollector ℕ
collector = new_usage_collector (bytes "a/game") 5 4 8000

collect_round-once_example :
    let pids = (round_members whole 2 round collector).0 in
    ((collect_round whole 2 round collector).0.memory
      ≡ resident_sum whole table (distinct pids) % 2 ^ 64)
    × ((pid : ℕ) → count pid (distinct pids) ≡ (if is_in pid pids then 1 else 0))
unfolding new_usage_collector
collect_round-once_example = collect_round-once whole 2 round collector

-- Process 6 is counted once.
counted : (collect_round whole 2 round collector).0.memory ≡ 11000
unfolding collect_round new_usage_collector has_marker read_digits text_beq
counted = refl

-- A tick that finds no process, and two that do.
abbrev events : List (Event ℕ)
events =
    ticked none round true ∷ ticked (some 5) round true ∷ ticked (some 5) round true ∷ done ∷ []

abbrev first : TaskUsage ℕ
first = record { usage = (collect_round whole 2 round collector).0; timestamp = 3 }

poll_stats-first_example : (first.usage.user_mode ≡ 0) × (first.usage.system_mode ≡ 0)
unfolding poll_stats
poll_stats-first_example =
    poll_stats-first whole 2 (bytes "a/game") 4 8000 events first
      (poll_from whole 2 (bytes "a/game") 4 8000 (ticked (some 5) round true ∷ done ∷ [])
        (some (collect_round whole 2 round collector).1)).sent
      refl

-- In two seconds, a process has used 4 seconds more.
later :
    (collect whole 4 8000 table
      (6 ∷ [])
      2000000000
      ((6, record { user = 2; sys = 1; at = 0 }) ∷ [])).0.user_mode
    ≡ 200
unfolding collect
later = refl
