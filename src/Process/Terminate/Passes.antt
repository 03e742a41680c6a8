-- ===== src/Process/Terminate/Passes.antt =====
-- What ending a part of a task keeps: whatever is kept by a look at its processes, by a sleep, and by
-- a signal to those of that part that were found.
use nomad_driver_steamcmd.Base.{ℕ, zero, suc, ltb, Bool, Bool-cases, not, ◌&&◌, ℤ, pos, inl, inr}
use nomad_driver_steamcmd.Process.Terminate.{
  Procs, seconds, is_empty, split_off, none_left, wait_from, wait_until, kill_left, stop_part,
}

pub record Passes {S : Type 0} (procs : Procs S) (support : Bool) (P : S → Type 0) : Type 0 where
  pub lists : (s : S) → P s → P (procs.list s).1
  pub sleeps : (s : S) → P s → P (procs.sleep s)
  pub sends :
      (sig : ℤ) (s : S) → P s → P (procs.signal (split_off procs support s).0 sig (procs.list s).1)

module _ {S : Type 0} (procs : Procs S) (support : Bool) (P : S → Type 0)
    (passes : Passes procs support P) where
  open procs use {list, signal, now, sleep}

  wait_from-Passes :
      (fuel deadline : ℕ) (s : S)
      → P s
      → P (wait_from procs fuel deadline (none_left procs support) s).1
  unfolding wait_from none_left split_off
  wait_from-Passes zero deadline s p = p
  wait_from-Passes (suc fuel) deadline s p =
      let once = passes.lists s p in
      elim (Bool-cases (none_left procs support s).0) [
        | inl ended ↦ rw ended once
        | inr more ↦ rw more (elim (Bool-cases (ltb deadline (now (list s).1))) [
          | inl late ↦ rw late once
          | inr early ↦
              rw early
                (wait_from-Passes fuel deadline (sleep (list s).1) (passes.sleeps (list s).1 once))
        ])
      ]

  pub wait_until-Passes :
      (timeout : ℕ) (s : S) → P s → P (wait_until procs timeout (none_left procs support) s).1
  unfolding wait_until
  wait_until-Passes timeout s p = wait_from-Passes _ _ s p

  -- A signal to what was found, and the wait for it.
  pub waited-Passes :
      (sig : ℤ) (grace : ℕ) (s : S)
      → P s
      → P
          (wait_until procs grace
            (none_left procs support)
            (signal (split_off procs support s).0 sig (list s).1)).1
  waited-Passes sig grace s p = wait_until-Passes grace _ (passes.sends sig s p)

  pub kill_left-Passes : (always : Bool) (s : S) → P s → P (kill_left procs support always s)
  unfolding kill_left split_off
  kill_left-Passes always s p =
      elim (Bool-cases (is_empty (split_off procs support s).0 && not always)) [
        | inl ended ↦ rw ended (passes.lists s p)
        | inr more ↦ rw more (waited-Passes (pos 9) (seconds 5) s p)
      ]

  pub stop_part-Passes :
      (always : Bool) (sig : ℤ) (grace : ℕ) (s : S)
      → P s
      → P (stop_part procs support always sig grace s)
  unfolding stop_part split_off
  stop_part-Passes always sig grace s p =
      let told = waited-Passes sig grace s p in
      elim (Bool-cases (is_empty (split_off procs support s).0)) [
        | inl ended ↦ rw ended (passes.lists s p)
        | inr more ↦
            rw more
              (elim (Bool-cases
                (wait_until procs grace (none_left procs support)
                  (signal (split_off procs support s).0 sig (list s).1)).0) [
                    | inl quit ↦ rw quit told
                    | inr rest ↦ rw rest (kill_left-Passes always _ told)
                  ])
      ]
