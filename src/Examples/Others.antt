-- ===== src/Examples/Others.antt =====
-- A driver with two tasks, of which the operations touch one.
use nomad_driver_steamcmd.Base.{ℕ, bytes, text_eq, text_beq, true, some, [], ◌∷◌, ok, ◌≡◌, refl}
use nomad_driver_steamcmd.Task.{Machine, new_task_handle, load, destroy_task}
use nomad_driver_steamcmd.Lifecycle.Start.{start_task}
use nomad_driver_steamcmd.Lifecycle.Recover.{recover_task}
use nomad_driver_steamcmd.Lifecycle.Store.{World}
use nomad_driver_steamcmd.Lifecycle.Others.{operations-Spares}
use nomad_driver_steamcmd.Examples.Lifecycle.{host, plugin, task, state}

abbrev machine : Machine ℕ
machine = record {
  task_members = λ h s. ([], s);
  proc_comm = λ pid s. [];
  signal_pids = λ pids sig s. s;
  signal_group = λ pid sig s. (s, ok tt);
  run_cleanup = λ c s. s;
  cancel = λ id s. s;
}

abbrev world : World ℕ
world = (5, (bytes "u", new_task_handle (bytes "u") (bytes "game") (bytes "a") 0) ∷ [])

operations-Spares_example :
    (load (bytes "u") (start_task host plugin (task true) world).0.1 ≡ load (bytes "u") world.1)
    × (load
          (bytes "u")
          (recover_task host
            (some (record { task = task true; driver_state = ok state }))
            world).0.1
        ≡ load (bytes "u") world.1)
    × (load (bytes "u") (destroy_task machine (task true).task_id true world.1 world.0).0.1
        ≡ load (bytes "u") world.1)
unfolding text_beq
operations-Spares_example =
    operations-Spares host plugin machine (task true) (ok state) true (bytes "u") world refl
