-- ===== src/Process/Terminate/Order.antt =====
-- In which order the processes of a task are ended.
use nomad_driver_steamcmd.Base.{
  ℕ, nat_eq, nat_beq_iff, Bool, Bool-cases, true, false, ◌&&◌, List, [], ◌∷◌, ◌≡◌, refl, subst, sym,
  ◌==◌, ℤ, arith, inl, inr,
}
use nomad_driver_steamcmd.Process.Found.{is_in}
use nomad_driver_steamcmd.Process.Terminate.{
  Procs, living, seconds, split_off, stop_work, stop_support, terminate_processes,
}
use nomad_driver_steamcmd.Process.Terminate.Passes.{Passes, stop_part-Passes}
use nomad_driver_steamcmd.Process.Members.{is_support}
use nomad_driver_steamcmd.Process.Terminate.Ends.{
  Gone, told, told-Later, listed, slept, here, Ending, Later-Gone, stop_part-Gone,
}

both : {a b : Bool} → a ≡ true → b ≡ true → (a && b) ≡ true
both h k = rw (h, k) refl

module _ {S : Type 0} (procs : Procs S) where
  open procs use {list, signal, now, sleep}

  -- What is kept while only the workload is signalled, as long as any of it is left.
  pub record Ordered (Safe : S → Type 0) : Type 0 where
    pub lists : (s : S) → Safe s → Safe (list s).1
    pub sleeps : (s : S) → Safe s → Safe (sleep s)
    pub work_sent :
        (pids : List ℕ) (sig : ℤ) (s : S)
        → Safe s
        → ((pid : ℕ) → is_in pid pids ≡ true → is_support (procs.comm pid s) ≡ false)
        → Safe (signal pids sig s)
    pub support_sent :
        (pids : List ℕ) (sig : ℤ) (s : S) → Safe s → Gone procs false s → Safe (signal pids sig s)

  living-is_support :
      (pid : ℕ) (pids : List ℕ) (s : S)
      → is_in pid (living procs false pids s) ≡ true
      → is_support (procs.comm pid s) ≡ false
  unfolding living is_in
  living-is_support pid [] s h = cc
  living-is_support pid (p ∷ pids) s h = elim (Bool-cases (p == pid)) [
    | inl same ↦
        subst (λ q. is_support (procs.comm q s) ≡ false) ((nat_beq_iff p pid).0 same)
          (elim (Bool-cases (is_support (procs.comm p s))) [
            | inr work ↦ work
            | inl support ↦
                subst (λ q. is_support (procs.comm q s) ≡ false) (sym ((nat_beq_iff p pid).0 same))
                  (living-is_support pid pids s (ground (arith, h, support)))
          ])
    | inr other ↦ living-is_support pid pids s (ground (arith, h, other))
  ]

  module _ (ending : Ending procs) where
    stop_work-Passes : (Safe : S → Type 0) → Ordered Safe → Passes procs false Safe
    unfolding split_off
    stop_work-Passes Safe ordered = record {
      lists = ordered.lists;
      sleeps = ordered.sleeps;
      sends = λ sig s safe.
          ordered.work_sent _ sig (list s).1 (ordered.lists s safe)
            (λ pid found. living-is_support pid (list s).0 (list s).1 found);
    }

    stop_support-Passes :
        (Safe : S → Type 0) → Ordered Safe → Passes procs true (λ s. Safe s × Gone procs false s)
    unfolding split_off
    stop_support-Passes Safe ordered = record {
      lists = λ s (safe, gone). (
        ordered.lists s safe,
        Later-Gone procs ending false s (list s).1 (listed s s (here s)) gone,
      );
      sleeps = λ s (safe, gone). (
        ordered.sleeps s safe,
        Later-Gone procs ending false s (sleep s) (slept s s (here s)) gone,
      );
      sends = λ sig s (safe, gone). (
        ordered.support_sent _ sig (list s).1 (ordered.lists s safe)
            (Later-Gone procs ending false s (list s).1 (listed s s (here s)) gone),
        Later-Gone procs ending false s (told procs true sig s) (told-Later procs true sig s) gone,
      );
    }

    -- If nothing new appears in a task while it is ended, and 5 seconds after a SIGKILL the processes
    -- that it was sent to are gone, then a helper is signalled only in a state in which the workload is
    -- gone: whatever is kept by looks, sleeps, signals to the workload, and any signals while the
    -- workload is gone, is kept; and in the end it is reported that everything is gone, whatever the
    -- signal and the grace were.
    pub terminate_processes-Gone :
        (Safe : S → Type 0) (sig : ℤ) (grace : ℕ) (s : S)
        → Ordered Safe
        → Safe s
        → Safe (terminate_processes procs sig grace s).1
          × Gone procs false (stop_work procs sig grace s)
          × ((terminate_processes procs sig grace s).0 ≡ true)
    unfolding terminate_processes stop_work stop_support split_off
    terminate_processes-Gone Safe sig grace s ordered safe =
        let work = stop_work procs sig grace s in
        let worked = stop_part-Gone procs ending false false sig grace s in
        let (kept, gone) =
          stop_part-Passes procs true (λ t. Safe t × Gone procs false t)
            (stop_support-Passes Safe ordered) true (ℤ.pos 15) (seconds 5) work
            (
              stop_part-Passes procs false Safe (stop_work-Passes Safe ordered) false sig grace s
                  safe,
              worked,
            ) in
        (
          ordered.lists (stop_support procs work) kept,
          worked,
          both gone (stop_part-Gone procs ending true true (ℤ.pos 15) (seconds 5) work),
        )
