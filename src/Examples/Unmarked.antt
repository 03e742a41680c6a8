-- ===== src/Examples/Unmarked.antt =====
-- A start with a steamcmd that exits with 0 and tells of no success.
use nomad_driver_steamcmd.Base.{
  ℕ, any, bytes, text_eq, pos, true, none, [], err, ok, ◌≢◌, refl, no_exec, arith,
}
use nomad_driver_steamcmd.Launch.{app_installed}
use nomad_driver_steamcmd.Process.Members.{find_marked}
use nomad_driver_steamcmd.Steamcmd.Install.{exited}
use nomad_driver_steamcmd.Steamcmd.Reader.{seen_lines}
use nomad_driver_steamcmd.Steamcmd.Install.Verdict.{is_success}
use nomad_driver_steamcmd.Steamcmd.Patterns.{re_success}
use nomad_driver_steamcmd.Regexp.{match_string}
use nomad_driver_steamcmd.Lifecycle.Host.{Host}
use nomad_driver_steamcmd.Lifecycle.Start.{start_task}
use nomad_driver_steamcmd.Lifecycle.Unmarked.{Unmarked}
use nomad_driver_steamcmd.Lifecycle.Unmarked.Start.{start_task-Unmarked}
use nomad_driver_steamcmd.Examples.Lifecycle.{host, plugin, task, state}

abbrev silent_host : Host ℕ
silent_host = record host {
  read_file = λ s path. err no_exec;
  steamcmd = λ program args timeout s. (
    s,
    record {
      timing = record { now = λ i. i; amount = λ i. 1 };
      output = bytes "Loading\n";
      ending = exited (pos 0) none;
    },
  );
}

unmarked : Unmarked silent_host plugin (task true)
unfolding app_installed find_marked any is_success seen_lines match_string re_success
unmarked = record {
  runs = λ program args timeout s. refl;
  absent = λ dir app_id s. ground arith;
  lone = λ s. refl;
}

start_task-Unmarked_example : (start_task silent_host plugin (task true) (5, [])).1 ≢ ok state
start_task-Unmarked_example =
    start_task-Unmarked silent_host plugin (task true) unmarked (5, []) state
