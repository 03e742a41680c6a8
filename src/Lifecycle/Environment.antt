-- ===== src/Lifecycle/Environment.antt =====
-- The environment of a launched process.
use nomad_driver_steamcmd.Base.{
  Text, bytes, text_eq, ◌==◌, has_prefix, length, drop, Option, none, some, List, [], ◌∷◌, ◌++◌,
  map, if◌then◌else◌, All, ◌≡◌, refl, ◌∙◌, arith,
}
use nomad_driver_steamcmd.Config.{TaskConfig, LaunchConfig}
use nomad_driver_steamcmd.Launch.{WindowsRuntime, runtime_env}
use nomad_driver_steamcmd.Process.{task_marker_env, task_key, task_marker}
use nomad_driver_steamcmd.Lifecycle.Host.{NomadTask}
use nomad_driver_steamcmd.Lifecycle.Adopt.{marker_of}
use nomad_driver_steamcmd.Lifecycle.Start.{env_entry, launch_env}

-- The value that an entry gives to a variable.
unfoldable pub value_of : Text → Text → Option Text
value_of name entry =
    if has_prefix entry (name ++ (b'=' ∷ []))
    then some (drop (length (name ++ (b'=' ∷ []))) entry)
    else none

-- The value of a variable in an environment: that of the last entry for it, as package exec has it.
unfoldable pub last_value : Text → List Text → Option Text
unfolding value_of
last_value name [] = none
last_value name (entry ∷ env) = elim (last_value name env) [
  | some v ↦ some v
  | none ↦ value_of name entry
]

last_value-append :
    (name : Text) (xs ys : List Text)
    → last_value name (xs ++ ys)
      ≡ elim (last_value name ys) [ some v ↦ some v | none ↦ last_value name xs ]
unfolding last_value
last_value-append name [] ys = ground arith
last_value-append name (x ∷ xs) ys = ground (arith, last_value-append name xs ys)

-- Entries none of which is for the variable.
abbrev pub Without : Text → List (Text × Text) → Type 0
Without name entries = All (λ e. value_of name (env_entry e) ≡ none) entries

last_value-Without :
    (name : Text) (entries : List (Text × Text))
    → Without name entries
    → last_value name (map env_entry entries) ≡ none
unfolding last_value
last_value-Without name [] h = refl
last_value-Without name (e ∷ entries) h = ground (arith, h.0, last_value-Without name entries h.1)

value_of-task_marker : (key : Text) → value_of task_marker_env (task_marker key) ≡ some key
unfolding value_of task_marker has_prefix
value_of-task_marker key = refl

last_value-cons :
    (name entry : Text) (env : List Text)
    → last_value name env ≡ none
    → last_value name (entry ∷ env) ≡ value_of name entry
unfolding last_value
last_value-cons name entry env h = rw h refl

-- Unless the job's own environment sets the marker's variable, it has the key of the task in the
-- environment of the launched process, whatever the driver's environment and the Windows runtime add.
pub last_value-launch_env :
    (environ : List Text) (task : NomadTask) (cfg : TaskConfig) (launch : LaunchConfig)
    (rt : WindowsRuntime) (dir : Text)
    → Without task_marker_env launch.env
    → Without task_marker_env task.task_env
    → last_value task_marker_env (launch_env environ task cfg launch rt dir)
      ≡ some (task_key task.alloc_id task.task_name)
unfolding launch_env marker_of
last_value-launch_env environ task cfg launch rt dir free free' =
    let key = task_key task.alloc_id task.task_name in
    let given = map env_entry launch.env ++ map env_entry task.task_env in
    let runtime : List Text =
      (if cfg.platform == bytes "windows" then runtime_env rt cfg.app_id dir else []) in
    let unset : last_value task_marker_env given ≡ none = ground (
      arith,
      last_value-append task_marker_env (map env_entry launch.env) (map env_entry task.task_env),
      last_value-Without task_marker_env launch.env free,
      last_value-Without task_marker_env task.task_env free',
    ) in
    let marked : last_value task_marker_env (task_marker key ∷ given) ≡ some key =
      last_value-cons task_marker_env (task_marker key) given unset ∙ value_of-task_marker key in
    ground (
      arith,
      last_value-append task_marker_env environ (runtime ++ (task_marker key ∷ given)),
      last_value-append task_marker_env runtime (task_marker key ∷ given),
      marked,
    )
