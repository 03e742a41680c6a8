-- ===== src/Process/Terminate/Keeps.antt =====
-- Which processes are signalled while a task is ended.
use nomad_driver_steamcmd.Base.{ℕ, Bool, true, false, List, [], ◌∷◌, ◌≡◌, ℤ, nat_eq, arith}
use nomad_driver_steamcmd.Process.Found.{is_in}
use nomad_driver_steamcmd.Process.Terminate.{
  Procs, seconds, living, split_off, stop_work, stop_support, terminate_processes,
}
use nomad_driver_steamcmd.Process.Terminate.Passes.{Passes, stop_part-Passes}

-- Processes that are all of one kind.
abbrev pub AllMine : (ℕ → Bool) → List ℕ → Type 0
AllMine mine pids = (pid : ℕ) → is_in pid pids ≡ true → mine pid ≡ true

-- What is kept of the states while only processes of one kind are listed and signalled.
pub record Keeps {S : Type 0} (procs : Procs S) (mine : ℕ → Bool) (Safe : S → Type 0) : Type 0 where
  pub lists : (s : S) → Safe s → Safe (procs.list s).1
  pub only_mine : (s : S) → Safe s → AllMine mine (procs.list s).0
  pub signals :
      (pids : List ℕ) (sig : ℤ) (s : S)
      → Safe s
      → AllMine mine pids
      → Safe (procs.signal pids sig s)
  pub sleeps : (s : S) → Safe s → Safe (procs.sleep s)

module _ {S : Type 0} (procs : Procs S) (mine : ℕ → Bool) (Safe : S → Type 0)
    (keeps : Keeps procs mine Safe) where
  open procs use {list, signal, now, sleep}

  is_in-living :
      (support : Bool) (pid : ℕ) (pids : List ℕ) (s : S)
      → is_in pid (living procs support pids s) ≡ true
      → is_in pid pids ≡ true
  unfolding is_in living
  is_in-living support pid [] s h = cc
  is_in-living support pid (p ∷ pids) s h = ground (arith, h, is_in-living support pid pids s)

  split_off-AllMine : (support : Bool) (s : S) → Safe s → AllMine mine (split_off procs support s).0
  unfolding split_off
  split_off-AllMine support s safe pid h =
      keeps.only_mine s safe pid (is_in-living support pid (list s).0 (list s).1 h)

  part-Passes : (support : Bool) → Passes procs support Safe
  unfolding split_off
  part-Passes support = record {
    lists = keeps.lists;
    sleeps = keeps.sleeps;
    sends = λ sig s safe.
        keeps.signals _ sig (list s).1 (keeps.lists s safe) (split_off-AllMine support s safe);
  }

  -- Ending a task keeps whatever is kept by signals to its own processes, by looks and by waiting.
  pub terminate_processes-Keeps :
      (sig : ℤ) (grace : ℕ) (s : S) → Safe s → Safe (terminate_processes procs sig grace s).1
  unfolding terminate_processes stop_work stop_support
  terminate_processes-Keeps sig grace s safe = keeps.lists _ (
      stop_part-Passes procs true Safe (part-Passes true) true (ℤ.pos 15) (seconds 5) _
        (stop_part-Passes procs false Safe (part-Passes false) false sig grace s safe))
