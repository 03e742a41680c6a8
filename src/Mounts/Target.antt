-- ===== src/Mounts/Target.antt =====
-- Where a mount may be linked.
use nomad_driver_steamcmd.Base.{
  Text, nat_eq, ◌==◌, trim_left, true, [], ◌∷◌, ok, IsOk, ◌≡◌, ◌↔◌, arith,
}
use nomad_driver_steamcmd.FilePath.{slash, join, is_abs, clean_pieces}
use nomad_driver_steamcmd.FilePath.Inside.{IsBelow, escapes-iff-IsBelow}
use nomad_driver_steamcmd.FilePath.Join.{is_abs-join}
use nomad_driver_steamcmd.Mounts.{mount_target}

-- An accepted mount destination lies below the task directory, and a destination is refused only if it
-- does not.
pub mount_target-IsBelow :
    (task_dir task_path : Text)
    → is_abs task_dir ≡ true
    → let target = join (task_dir ∷ trim_left (λ b. b == slash) task_path ∷ []) in
      (mount_target task_dir task_path ≡ ok target)
      ↔ IsBelow (clean_pieces task_dir) (clean_pieces target)
unfolding mount_target
mount_target-IsBelow task_dir task_path rooted =
    let target = join (task_dir ∷ trim_left (λ b. b == slash) task_path ∷ []) in
    let decides =
      escapes-iff-IsBelow task_dir target rooted
        (is_abs-join task_dir (trim_left (λ b. b == slash) task_path) rooted) in
    (λ h. decides.0 (ground arith), λ h. ground (arith, decides.1 h))

-- A leading slash makes no difference.
pub mount_target-slash :
    (task_dir task_path : Text)
    → IsOk (mount_target task_dir (slash ∷ task_path)) ↔ IsOk (mount_target task_dir task_path)
unfolding mount_target trim_left
mount_target-slash task_dir task_path = (λ h. ground arith, λ h. ground arith)
