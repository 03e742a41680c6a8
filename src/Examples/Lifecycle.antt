-- ===== src/Examples/Lifecycle.antt =====
-- Starts and recoveries on a machine whose state is its clock.
use nomad_driver_steamcmd.Base.{
  ℕ, suc, nat_eq, bytes, text_beq, text_eq, ◌*◌, ◌≤◌, pos, read_digits, has_prefix, Bool, true,
  false, none, some, [], ◌∷◌, Result, ok, err, IsOk, ◌≡◌, ◌↔◌, refl, arith, no_pid,
}
use nomad_driver_steamcmd.Regexp.{find_submatch, submatch}
use nomad_driver_steamcmd.Config.{PluginConfig, TaskConfig, LaunchConfig}
use nomad_driver_steamcmd.Mounts.{directory, setup_mounts}
use nomad_driver_steamcmd.Steamcmd.Patterns.{is_app_id, re_state_flags}
use nomad_driver_steamcmd.Steamcmd.Install.{not_started}
use nomad_driver_steamcmd.Process.{task_marker_env, task_key}
use nomad_driver_steamcmd.FilePath.{is_abs}
use nomad_driver_steamcmd.Launch.{magnitude}
use nomad_driver_steamcmd.Steamcmd.Args.{platform_args, login_args}
use nomad_driver_steamcmd.Lifecycle.Store.{on_host, act, keep_handle, or_delete}
use nomad_driver_steamcmd.Lifecycle.Adopt.{adopt_or_reap}
use nomad_driver_steamcmd.Task.{
  Tasks, TaskStatus, ProcState, task_unknown, TaskHandle, TaskState, new_task_handle, phase_running,
  phase_exited, task_running, load, inspect_task,
}
use nomad_driver_steamcmd.Lifecycle.Host.{
  NomadTask, Host, task_log_files, min_free_bytes, enough_space,
}
use nomad_driver_steamcmd.Lifecycle.Start.{env_entry, launch_env, start_task}
use nomad_driver_steamcmd.Lifecycle.Failed.{start_task-load}
use nomad_driver_steamcmd.Lifecycle.Tracked.{Runs, Tracked}
use nomad_driver_steamcmd.Lifecycle.Started.{start_task-Tracked}
use nomad_driver_steamcmd.Lifecycle.Space.{enough_space_iff}
use nomad_driver_steamcmd.Lifecycle.Environment.{value_of, last_value, last_value-launch_env}
use nomad_driver_steamcmd.Lifecycle.Recover.{KeptHandle, live_of, recover_task}
use nomad_driver_steamcmd.Lifecycle.Recover.Found.{Found, recover_task-Found}
use nomad_driver_steamcmd.Lifecycle.Handle.{watch_recovered, wait_task}
use nomad_driver_steamcmd.Lifecycle.Handle.Once.{
  Life, life, Seen, gone, launched, event, Forgotten, Reached-Seen,
}

-- Process 7 has the marker of the task; steamcmd does not start, and the app is installed.
abbrev pub host : Host ℕ
host = record {
  os = record {
    mkdir_all = λ path s. (s, ok tt);
    lstat = λ path s. ok directory;
    readlink = λ path s. ok [];
    remove = λ path s. (s, ok tt);
    make_symlink = λ old new s. (s, ok tt);
  };
  stage_os = record {
    open_file = λ path s. (s, ok 3);
    permissions = λ file s. (s, ok 0);
    close_file = λ file s. s;
    mkdir_all = λ path s. (s, ok tt);
    create_temp = λ folder pattern s. (s, ok folder);
    copy = λ tmp file s. (s, ok tt);
    close_temp = λ tmp s. (s, ok tt);
    chmod = λ tmp mode s. (s, ok tt);
    rename = λ tmp dst s. (s, ok tt);
    remove = λ tmp s. (s, ok tt);
  };
  procs = record {
    list = λ s. ([], s);
    alive = λ pid s. true;
    comm = λ pid s. bytes "game.exe";
    signal = λ pids sig s. s;
    now = λ s. s;
    sleep = λ s. suc s;
  };
  proc_dir = λ s. record {
    entries = ok [];
    stat = λ pid. ok (bytes "7 (game) S 1");
    environ = λ pid. ok [];
  };
  self = 1;
  tree = λ s root. some (root ∷ []);
  parse_duration = λ s. ok (pos 60);
  statfs = λ path s. ok (1000000, 4096);
  stat = λ s path. none;
  file_info = λ s path. none;
  read_file = λ s path. ok (bytes "\"StateFlags\"\t\t\"4\"\n");
  home = λ s. [];
  environ = λ s. bytes "PATH=/bin" ∷ [];
  open_log = λ path s. (s, ok 4);
  close_log = λ file s. s;
  emit = λ message s. s;
  acquire = λ timeout s. s;
  release = λ s. s;
  steamcmd = λ program args timeout s. (
    s,
    record {
      timing = record { now = λ i. i; amount = λ i. 1 };
      output = [];
      ending = not_started (no_pid []);
    },
  );
  timed_out = λ timeout s. false;
  remove_file = λ path s. (s, none);
  launch = λ command s. (s, ok 7);
  kill = λ pid s. s;
  set_state = λ state s. (s, ok tt);
  follow = λ paths stale fd s. s;
}

abbrev pub plugin : PluginConfig
plugin = record {
  steamcmd_path = bytes "steamcmd";
  default_login_anonymous = true;
  default_login_username = [];
  default_login_password = [];
  default_login_password_file = [];
  default_proton_path = [];
  install_root = [];
  max_concurrent = 0;
}

abbrev pub server : LaunchConfig
server = record { command = bytes "./server"; args = []; env = (bytes "LANG", bytes "C") ∷ [] }

abbrev pub config : Bool → TaskConfig
config update = record {
  app_id = bytes "10";
  install_dir = bytes "/srv";
  beta = [];
  beta_password = [];
  validate = false;
  platform = [];
  proton_path = [];
  compat_data_path = [];
  compat_client_path = [];
  windows_display = false;
  login_anonymous = true;
  login_username = [];
  login_password = [];
  login_password_file = [];
  config_files = [];
  follow_logs = [];
  launch = some server;
  update_on_start = update;
  install_timeout = [];
  repair_manifest = false;
}

abbrev pub task : Bool → NomadTask
task update = record {
  task_id = bytes "t";
  task_name = bytes "game";
  alloc_id = bytes "a";
  task_dir = bytes "/alloc";
  mounts = [];
  task_env = [];
  stdout_path = bytes "/out";
  stderr_path = bytes "/err";
  driver_config = ok (config update);
}

abbrev other : TaskHandle
other = new_task_handle (bytes "u") (bytes "tool") (bytes "b") 0

-- steamcmd cannot be started.
start_task-load_example :
    load (bytes "u") (start_task host plugin (task true) (5, (bytes "u", other) ∷ [])).0.1
    ≡ load (bytes "u") ((bytes "u", other) ∷ [])
unfolding start_task text_beq new_task_handle on_host setup_mounts keep_handle or_delete
    task_log_files adopt_or_reap platform_args login_args
start_task-load_example =
    start_task-load host plugin (task true) (5, (bytes "u", other) ∷ []) (bytes "u") refl

abbrev pub state : TaskState
state = record {
  phase = phase_running;
  pid = 7;
  started_at = 5;
  app_id = bytes "10";
  install_dir = bytes "/srv";
  wine_cleanup = none;
}

-- The install is skipped and the server launched.
start_task-Tracked_example :
    Tracked (task false) state (start_task host plugin (task false) (5, [])).0.1
unfolding start_task text_beq new_task_handle is_app_id find_submatch re_state_flags read_digits
    submatch on_host setup_mounts keep_handle or_delete task_log_files adopt_or_reap magnitude act
    is_abs
start_task-Tracked_example = start_task-Tracked host plugin (task false) (5, []) state refl

enough_space_iff_example :
    (IsOk (enough_space host (bytes "/srv") 0).1 ↔ (min_free_bytes ≤ 1000000 * 4096))
    × ((enough_space host (bytes "/srv") 0).0 ≡ 0)
enough_space_iff_example = enough_space_iff host (bytes "/srv") 0 1000000 4096 refl (omega arith)

last_value-launch_env_example :
    last_value task_marker_env (
      launch_env []
        (task true)
        (config true)
        server
        (record { proton_path = []; compat_data_path = []; client_path = [] })
        (bytes "/srv"))
    ≡ some (task_key (bytes "a") (bytes "game"))
unfolding value_of has_prefix env_entry
last_value-launch_env_example =
    last_value-launch_env [] (task true) (config true) server
      (record { proton_path = []; compat_data_path = []; client_path = [] }) (bytes "/srv")
      (refl, tt) tt

abbrev kept : KeptHandle
kept = record { task = task true; driver_state = ok state }

recover_task-Found_example :
    Found
      (bytes "t")
      state
      ((recover_task host (some kept) (9, [])).0.1, (recover_task host (some kept) (9, [])).1)
      (live_of host (task true) 7 9)
unfolding load
recover_task-Found_example = recover_task-Found host kept state (9, []) refl refl refl refl

-- The handle of a task that runs.
abbrev running_handle : TaskHandle
running_handle = record (new_task_handle (bytes "t") (bytes "game") (bytes "a") 0) {
  process = some 7;
  state = state;
}

running_handle-Runs : Runs running_handle
unfolding new_task_handle
running_handle-Runs = record {
  phase = refl;
  launched = refl;
  fresh = record { runs = refl; open_ = refl };
}

-- A task that was recovered, and whose processes are found gone.
abbrev found_gone : Life
found_gone = life (watch_recovered 9 true running_handle) 0 false

Reached-Seen_example : Seen found_gone
Reached-Seen_example = Reached-Seen found_gone (
    event (life running_handle 1 false) found_gone (launched running_handle running_handle-Runs)
      (gone 9 running_handle 0 false))

abbrev over : KeptHandle
over = record kept { driver_state = ok (record state { phase = phase_exited }) }

abbrev recovered : Tasks
recovered = (recover_task host (some over) (9, [])).0.1

abbrev inspected : Result TaskStatus → ProcState
inspected (ok status) = status.status_state
inspected (err e) = task_unknown

-- A task that was over is recovered as one that runs, and a wait for it does not end.
recovered_exited :
    (wait_task (bytes "t") recovered ≡ ok none)
    × (inspected (inspect_task (bytes "t") recovered) ≡ task_running)
unfolding recover_task wait_task inspect_task on_host keep_handle text_beq
recovered_exited = (refl, refl)

recovered_handle : (h : TaskHandle) × (load (bytes "t") recovered ≡ some h) × Forgotten h
unfolding recover_task on_host keep_handle text_beq load new_task_handle
recovered_handle = (_, refl, record { phase = refl; fresh = record { runs = refl; open_ = refl } })
