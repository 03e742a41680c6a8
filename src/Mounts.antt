-- ===== src/Mounts.antt =====
-- driver/mounts.go: volume mounts as symbolic links in the task directory.
pub mod Target
pub mod Link
pub mod Setup
use nomad_driver_steamcmd.Base.{
  ℕ, Text, nat_eq, text_eq, text_beq, ◌==◌, trim_left, Bool, true, false, not, ◌&&◌, ◌||◌, Option,
  none, some, List, [], ◌∷◌, ◌++◌, if◌then◌else◌, Result, ok, err, Error, mount_outside, mounting,
  not_empty, not_a_directory,
}
use nomad_driver_steamcmd.Base.Effects.{Effect, pure, fail, lift, wrap, ◌>>=◌, ◌>>◌}
use nomad_driver_steamcmd.FilePath.{slash, join, dir, escapes}

-- `mountTarget`; `ToSlash` and `FromSlash` change nothing on Unix.
unfoldable pub mount_target : Text → Text → Result Text
mount_target task_dir task_path =
    let target = join (task_dir ∷ trim_left (λ b. b == slash) task_path ∷ []) in
    if escapes task_dir target then err (mount_outside task_path) else ok target

-- What `os.Lstat` finds.
pub data FileKind : Type 0 where
  symlink directory other : FileKind

-- The calls of package os, over a state `S` of the file system.
pub record Os (S : Type 0) : Type 0 where
  pub mkdir_all : Text → Effect S (Unit {0})
  pub lstat : Text → S → Result FileKind
  pub readlink : Text → S → Result Text
  pub remove : Text → Effect S (Unit {0})
  pub make_symlink : Text → Text → Effect S (Unit {0})

pub record MountConfig : Type 0 where
  pub host_path : Text
  pub task_path : Text
  pub readonly : Bool

unfoldable pub is_skipped : Option MountConfig → Bool
is_skipped none = true
is_skipped (some m) = m.host_path == [] || m.task_path == []

-- The paths of the read-only mounts that cannot be enforced: one for each warning.
abbrev pub warnings_of : MountConfig → List Text
warnings_of m = if m.readonly then m.task_path ∷ [] else []

module _ {S : Type 0} (os : Os S) where
  open os use {mkdir_all, lstat, readlink, remove, make_symlink}

  unfoldable pub links_to : Text → Text → S → Bool
  links_to target host_path s = elim (readlink target s) [
    | ok cur ↦ cur == host_path
    | err _ ↦ false
  ]

  -- What stands at the target already is dealt with; `true` if it is the link that is wanted.
  unfoldable pub clear_target : Text → Text → Effect S Bool
  unfolding links_to
  clear_target host_path target s = elim (lstat target s) [
    | err _ ↦ (s, ok false)
    | ok symlink ↦
        if links_to target host_path s
        then (s, ok true)
        else let (s', r) = remove target s in elim r [ ok _ ↦ (s', ok false) | err e ↦ (s', err e) ]
    | ok directory ↦
        let (s', r) = remove target s in
        elim r [ ok _ ↦ (s', ok false) | err _ ↦ (s', err (not_empty target)) ]
    | ok other ↦ (s, err (not_a_directory target))
  ]

  -- `linkMount`
  unfoldable pub link_mount : Text → Text → Effect S (Unit {0})
  unfolding clear_target
  link_mount host_path target = do
    mkdir_all (dir target)
    linked ← clear_target host_path target
    if linked then pure tt else make_symlink host_path target

  unfoldable pub mount_one : Text → MountConfig → Effect S (Unit {0})
  unfolding link_mount mount_target
  mount_one task_dir m = do
    target ← lift (mount_target task_dir m.task_path)
    wrap (mounting m.task_path) (link_mount m.host_path target)

  -- `setupMounts`, which returns its warnings also when it fails.
  unfoldable pub setup_mounts :
      Text → List (Option MountConfig) → List Text → S → S × List Text × Option Error
  unfolding mount_one is_skipped
  setup_mounts task_dir [] warnings s = (s, warnings, none)
  setup_mounts task_dir (none ∷ mounts) warnings s = setup_mounts task_dir mounts warnings s
  setup_mounts task_dir (some m ∷ mounts) warnings s =
      let skipped = setup_mounts task_dir mounts warnings s in
      let (s', r) = mount_one task_dir m s in
      let rest = setup_mounts task_dir mounts (warnings ++ warnings_of m) s' in
      if is_skipped (some m)
      then skipped
      else elim r [ ok _ ↦ rest | err e ↦ (s', warnings, some e) ]
