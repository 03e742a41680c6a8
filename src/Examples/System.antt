-- ===== src/Examples/System.antt =====
-- Stopping a task with one process, over the list of the signals that were sent.
use nomad_driver_steamcmd.Base.{
  ℕ, nat_eq, nat_beq_iff, Text, bytes, text_beq, read_digits, ◌==◌, ℤ, pos, All, Bool, Bool-cases,
  true, none, some, List, [], ◌∷◌, if◌then◌else◌, ok, ◌≡◌, refl, ap, arith, inl, inr,
}
use nomad_driver_steamcmd.Task.{TaskHandle, Tasks, new_task_handle, load}
use nomad_driver_steamcmd.Process.{has_marker, proc_alive}
use nomad_driver_steamcmd.Process.Members.{carries}
use nomad_driver_steamcmd.Process.Tree.{Descends, itself, through}
use nomad_driver_steamcmd.Lifecycle.System.{System, delivered, collector_for, stop_on, destroy_on}
use nomad_driver_steamcmd.Lifecycle.System.Owned.{Contained}
use nomad_driver_steamcmd.Lifecycle.System.Contained.{stop_on-Contained}

abbrev Sent : Type 0
Sent = List (ℤ × ℤ)

abbrev environ_of : ℕ → Text
environ_of pid = if pid == 7 then bytes "STEAMCMD_TASK_ID=a/game" else []

abbrev system : System Sent
system = record {
  proc_dir = λ sent. record {
    entries = ok (bytes "7" ∷ bytes "8" ∷ []);
    stat = λ pid. ok (bytes "7 (game) S 1");
    environ = λ pid. ok (environ_of pid);
  };
  comm_file = λ pid sent. ok (bytes "game\n");
  is_there = λ sent pid. true;
  children = λ sent pid. none;
  kill = λ target sig sent. ((target, sig) ∷ sent, delivered);
  now = λ sent. 0;
  sleep = λ sent. sent;
  run = λ bin args env sent. sent;
  environ = [];
  cancel = λ id sent. sent;
}

abbrev handle : TaskHandle
handle = record (new_task_handle (bytes "t") (bytes "game") (bytes "a") 0) { process = some 7 }

abbrev tasks : Tasks
tasks = (bytes "t", handle) ∷ []

abbrev await : TaskHandle → Sent → Sent
await h sent = sent

abbrev mine : ℕ → Bool
mine pid = pid == 7

abbrev OnlyMine : Sent → Type 0
OnlyMine sent = All (λ k. k.0 ≡ pos 7) sent

carries-mine :
    (sent : Sent) (pid : ℕ)
    → carries (system.proc_dir sent) (collector_for system 2 4 8000 handle).marker pid ≡ true
    → mine pid ≡ true
unfolding carries has_marker
carries-mine sent pid h = elim (Bool-cases (pid == 7)) [
  | inl same ↦ same
  | inr other ↦ ground (arith, other, h)
]

Descends-mine :
    (sent : Sent) (pid root : ℕ)
    → Descends (system.children sent) pid root
    → root ≡ 7
    → mine pid ≡ true
Descends-mine sent pid root (itself _) e = (nat_beq_iff pid 7).1 e
Descends-mine sent pid root (through _ child _ pids q listed d) e = cc

contained : Contained system 2 4 8000 mine OnlyMine await handle
unfolding collector_for new_task_handle
contained = record {
  marked = λ sent pid safe found. carries-mine sent pid found;
  below = λ sent pid safe d. Descends-mine sent pid _ d refl;
  kills = λ pid sig sent safe own. (ap (λ p. pos p) ((nat_beq_iff pid 7).0 own), safe);
  sleeps = λ sent safe. safe;
  runs = λ bin args env sent safe. safe;
  awaits = λ sent safe. safe;
  cancels = λ id sent safe. safe;
}

stop_on-Contained_example :
    OnlyMine (stop_on system 2 4 8000 await (bytes "t") 0 (bytes "SIGINT") tasks []).0
    × OnlyMine (destroy_on system 2 4 8000 (bytes "t") true tasks []).0.0
unfolding load text_beq
stop_on-Contained_example =
    stop_on-Contained system 2 4 8000 mine OnlyMine await handle contained (bytes "t")
      (bytes "SIGINT") 0 true tasks [] refl tt

-- The signals that a forced DestroyTask sends.
destroyed : (destroy_on system 2 4 8000 (bytes "t") true tasks []).0.0 ≡ (pos 7, pos 9) ∷ []
unfolding destroy_on text_beq new_task_handle read_digits has_marker proc_alive
destroyed = refl
