-- ===== src/Launch/Runtime.antt =====
-- The paths of a Windows runtime.
use nomad_driver_steamcmd.Base.{
  Text, bytes, text_eq, text_beq_iff, ◌==◌, Bool, Bool-cases, true, Option, [], ok, if◌then◌else◌,
  ◌≡◌, ◌⊎◌, arith, inl, inr,
}
use nomad_driver_steamcmd.FilePath.{is_abs}
use nomad_driver_steamcmd.FilePath.Join.{is_abs-join}
use nomad_driver_steamcmd.Config.{PluginConfig, TaskConfig}
use nomad_driver_steamcmd.Launch.{WindowsRuntime, resolve_windows_runtime}

-- For an absolute task directory, a runtime has an absolute Proton path and an absolute directory for
-- its data; the Proton path is the task's, or the plugin's if the task has none.
pub resolve_windows_runtime-is_abs :
    (stat : Text → Option Bool)
    → (task : TaskConfig) → (plugin : PluginConfig) → (task_root home : Text)
    → (rt : WindowsRuntime) → is_abs task_root ≡ true
    → resolve_windows_runtime stat task plugin task_root home ≡ ok rt
    → (is_abs rt.proton_path ≡ true)
      × (is_abs rt.compat_data_path ≡ true)
      × ((rt.proton_path ≡ task.proton_path)
          ⊎ ((task.proton_path ≡ []) × (rt.proton_path ≡ plugin.default_proton_path)))
unfolding resolve_windows_runtime
resolve_windows_runtime-is_abs stat task plugin task_root home rt rooted h = (
  ground arith,
  elim (Bool-cases (is_abs wanted)) [
    | inl absolute ↦ ground arith
    | inr relative ↦ ground (arith, is_abs-join task_root wanted rooted)
  ],
  elim (Bool-cases (task.proton_path == [])) [
    | inl empty ↦ inr ((text_beq_iff task.proton_path []).0 empty, ground arith)
    | inr given ↦ inl (ground arith)
  ],
)
  where
    wanted : Text
    wanted = if task.compat_data_path == [] then bytes "local/compat" else task.compat_data_path
