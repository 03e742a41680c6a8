-- ===== src/Process/Terminate/Ends.antt =====
-- That the processes of a task are ended.
use nomad_driver_steamcmd.Base.{
  ℕ, nat_eq, nat_beq_iff, Bool, Bool-cases, true, false, not, ◌&&◌, List, [], ◌∷◌, ◌≡◌, ◌⊎◌, refl,
  subst, ℤ, ◌+◌, ◌≤◌, ◌<◌, arith, inl, inr, ap,
}
use nomad_driver_steamcmd.Process.Found.{is_in}
use nomad_driver_steamcmd.Process.Terminate.{
  Procs, poll_interval, seconds, is_empty, split_off, none_left, wait_until, kill_left, stop_part,
  stop_work, stop_support, terminate_processes,
}
use nomad_driver_steamcmd.Process.Terminate.Passes.{
  Passes, wait_until-Passes, waited-Passes, stop_part-Passes,
}
use nomad_driver_steamcmd.Process.Terminate.Wait.{IsOver, wait_until-IsOver}

module _ {S : Type 0} (procs : Procs S) where
  open procs use {list, signal, now, sleep}

  -- The processes of a task at a state, of the workload or the helpers.
  abbrev pub left : Bool → S → List ℕ
  left support s = (split_off procs support s).0

  -- The states that a task's end goes through: it lists, sleeps and signals.
  pub data Later : S → S → Type 0 where
    here : (s : S) → Later s s
    listed : (s t : S) → Later s t → Later s (list t).1
    slept : (s t : S) → Later s t → Later s (sleep t)
    sent : (pids : List ℕ) (sig : ℤ) (s t : S) → Later s t → Later s (signal pids sig t)

  -- What is relied on: the task has no new processes while it is ended, its processes keep their
  -- names, and 5 seconds after a SIGKILL those that it was sent to are gone. The clock goes on.
  pub record Ending : Type 0 where
    pub no_new :
        (support : Bool) (pid : ℕ) (s t : S)
        → Later s t
        → is_in pid (left support t) ≡ true
        → is_in pid (left support s) ≡ true
    pub killed :
        (support : Bool) (pid : ℕ) (pids : List ℕ) (s t : S)
        → Later (signal pids (ℤ.pos 9) s) t
        → is_in pid pids ≡ true
        → now (signal pids (ℤ.pos 9) s) + seconds 5 < now t
        → is_in pid (left support t) ≡ false
    pub lists : (s : S) → now s ≤ now (list s).1
    pub sleeps : (s : S) → now s + poll_interval ≤ now (sleep s)

  abbrev pub Gone : Bool → S → Type 0
  Gone support s = is_empty (left support s) ≡ true

  pub is_in-is_empty : (pids : List ℕ) → is_empty pids ≡ true → (pid : ℕ) → is_in pid pids ≡ false
  unfolding is_in
  is_in-is_empty [] h pid = refl
  is_in-is_empty (p ∷ pids) h pid = ground (arith, h)

  pub is_empty-is_in : (pids : List ℕ) → ((pid : ℕ) → is_in pid pids ≡ false) → is_empty pids ≡ true
  unfolding is_in
  is_empty-is_in [] h = refl
  is_empty-is_in (p ∷ pids) h = ground (arith, h p, (nat_beq_iff p p).1 refl)

  Later-trans : (s t u : S) → Later s t → Later t u → Later s u
  Later-trans s t u a (here _) = a
  Later-trans s t u a (listed _ v b) = listed s v (Later-trans s t v a b)
  Later-trans s t u a (slept _ v b) = slept s v (Later-trans s t v a b)
  Later-trans s t u a (sent pids sig _ v b) = sent pids sig s v (Later-trans s t v a b)

  part-Later : (support : Bool) (s : S) → Passes procs support (Later s)
  unfolding split_off
  part-Later support s = record {
    lists = listed s;
    sleeps = slept s;
    sends = λ sig t later. sent (left support t) sig s (list t).1 (listed s t later);
  }

  wait_until-Later :
      (support : Bool) (timeout : ℕ) (s : S)
      → Later s (wait_until procs timeout (none_left procs support) s).1
  wait_until-Later support timeout s =
      wait_until-Passes procs support (Later s) (part-Later support s) timeout s (here s)

  -- The state in which a part of the task was sent a signal, and the end of the wait for it.
  abbrev pub told : Bool → ℤ → S → S
  told support sig s = signal (left support s) sig (list s).1

  abbrev waited : Bool → ℤ → ℕ → S → Bool × S
  waited support sig grace s = wait_until procs grace (none_left procs support) (told support sig s)

  pub told-Later : (support : Bool) (sig : ℤ) (s : S) → Later s (told support sig s)
  told-Later support sig s = sent (left support s) sig s (list s).1 (listed s s (here s))

  waited-Later :
      (support : Bool) (sig : ℤ) (grace : ℕ) (s : S) → Later s (waited support sig grace s).1
  waited-Later support sig grace s =
      waited-Passes procs support (Later s) (part-Later support s) sig grace s (here s)

  stop_part-Later :
      (support always : Bool) (sig : ℤ) (grace : ℕ) (s : S)
      → Later s (stop_part procs support always sig grace s)
  stop_part-Later support always sig grace s =
      stop_part-Passes procs support (Later s) (part-Later support s) always sig grace s (here s)

  module _ (ending : Ending) where
    pub Later-Gone : (support : Bool) (s t : S) → Later s t → Gone support s → Gone support t
    Later-Gone support s t later gone = is_empty-is_in (left support t) (λ pid.
        ground
          (arith, ending.no_new support pid s t later, is_in-is_empty (left support s) gone pid))

    -- A wait has found that nothing is left, or the time is up.
    waited-Gone :
        (support : Bool) (sig : ℤ) (grace : ℕ) (s : S)
        → Gone support (waited support sig grace s).1
          ⊎ (((waited support sig grace s).0 ≡ false)
              × (now (told support sig s) + grace < now (waited support sig grace s).1))
    unfolding none_left split_off
    waited-Gone support sig grace s = elim over [
      | inl (ended, (v, found)) ↦ inl (
          subst (Gone support) (ap (λ r. r.1) found)
            (Later-Gone support v (list v).1 (listed v v (here v)) (ap (λ r. r.0) found)))
      | inr late ↦ inr late
    ]
      where
        over :
            IsOver procs
              (none_left procs support)
              (now (told support sig s) + grace)
              (waited support sig grace s)
        over =
            wait_until-IsOver procs (none_left procs support)
              (record { looks = ending.lists; sleeps = ending.sleeps }) grace (told support sig s)

    kill_left-Gone :
        (support always : Bool) (s : S) → Gone support (kill_left procs support always s)
    unfolding kill_left split_off
    kill_left-Gone support always s = elim (Bool-cases (is_empty (left support s) && not always)) [
      | inl ended ↦
          rw ended (Later-Gone support s (list s).1 (listed s s (here s)) (ground (arith, ended)))
      | inr more ↦ rw more (elim (waited-Gone support (ℤ.pos 9) (seconds 5) s) [
        | inl gone ↦ gone
        | inr (_, late) ↦ is_empty-is_in _ (λ pid. ground (
          arith,
          ending.no_new support pid s _ (waited-Later support (ℤ.pos 9) (seconds 5) s),
          ending.killed support pid (left support s) (list s).1
              (waited support (ℤ.pos 9) (seconds 5) s).1
              (wait_until-Later support (seconds 5) (told support (ℤ.pos 9) s)),
          late,
        ))
      ])
    ]

    pub stop_part-Gone :
        (support always : Bool) (sig : ℤ) (grace : ℕ) (s : S)
        → Gone support (stop_part procs support always sig grace s)
    unfolding stop_part split_off
    stop_part-Gone support always sig grace s = elim (Bool-cases (is_empty (left support s))) [
      | inl none_there ↦
          rw none_there (Later-Gone support s (list s).1 (listed s s (here s)) none_there)
      | inr more ↦ rw more (elim (Bool-cases (waited support sig grace s).0) [
        | inl quit ↦ rw quit (elim (waited-Gone support sig grace s) [
          | inl gone ↦ gone
          | inr (stayed, _) ↦ absurd (ground (arith, quit, stayed))
        ])
        | inr rest ↦ rw rest (kill_left-Gone support always (waited support sig grace s).1)
      ])
    ]

    -- Nothing is left, of the workload or the helpers.
    pub terminate_processes-left :
        (support : Bool) (sig : ℤ) (grace : ℕ) (s : S)
        → Gone support (terminate_processes procs sig grace s).1
    unfolding terminate_processes stop_work stop_support
    terminate_processes-left support sig grace s =
        Later-Gone support t (list t).1 (listed t t (here t)) (go support)
      where
        work : S
        work = stop_part procs false false sig grace s

        t : S
        t = stop_part procs true true (ℤ.pos 15) (seconds 5) work

        go : (support : Bool) → Gone support t
        go false =
            Later-Gone false work t (stop_part-Later true true (ℤ.pos 15) (seconds 5) work)
              (stop_part-Gone false false sig grace s)
        go true = stop_part-Gone true true (ℤ.pos 15) (seconds 5) work
