-- ===== src/Mounts/Setup.antt =====
-- All mounts of a task.
use nomad_driver_steamcmd.Base.{
  Text, text_eq, Bool-cases, false, Option, none, some, List, [], ◌∷◌, ◌++◌, Result, ok, err, ◌≡◌,
  refl, arith, inl, inr, if◌then◌else◌,
}
use mathlib.Core.List.{append-nil, append_assoc}
use nomad_driver_steamcmd.Mounts.{Os, MountConfig, is_skipped, mount_one, warnings_of, setup_mounts}

-- The mounts that are not skipped and are read-only.
unfoldable pub unenforced : List (Option MountConfig) → List Text
unfolding is_skipped
unenforced [] = []
unenforced (none ∷ mounts) = unenforced mounts
unenforced (some m ∷ mounts) =
    let rest = unenforced mounts in
    if is_skipped (some m) then rest else if m.readonly then m.task_path ∷ rest else rest

module _ {S : Type 0} (os : Os S) (task_dir : Text) where
  -- When all mounts are set up, there is a warning for each read-only mount that is not skipped, in
  -- their order, and no other.
  pub setup_mounts-unenforced :
      (mounts : List (Option MountConfig))
      → (warnings ws : List Text) → (s t : S)
      → setup_mounts os task_dir mounts warnings s ≡ (t, ws, none)
      → ws ≡ warnings ++ unenforced mounts
  unfolding setup_mounts unenforced
  setup_mounts-unenforced [] warnings ws s t h = ground (append-nil warnings, arith)
  setup_mounts-unenforced (none ∷ mounts) warnings ws s t h =
      setup_mounts-unenforced mounts warnings ws s t h
  setup_mounts-unenforced (some m ∷ mounts) warnings ws s t h =
      elim (Bool-cases (is_skipped (some m))) [
        | inl skipped ↦
            rw skipped (setup_mounts-unenforced mounts warnings ws s t (rw skipped at h))
        | inr kept ↦
            mounted (mount_one os task_dir m s).1 refl kept
              (λ before. setup_mounts-unenforced mounts before ws (mount_one os task_dir m s).0 t)
      ]
    where
      mounted :
          (r : Result (Unit {0}))
          → (mount_one os task_dir m s).1 ≡ r
          → is_skipped (some m) ≡ false
          → ((before : List Text)
              → setup_mounts os task_dir mounts before (mount_one os task_dir m s).0 ≡ (t, ws, none)
              → ws ≡ before ++ unenforced mounts)
          → ws ≡ warnings ++ unenforced (some m ∷ mounts)
      mounted (err e) failed kept rest = ground arith
      mounted (ok done) made kept rest =
          let later = rest (warnings ++ warnings_of m) (ground arith) in
          elim (Bool-cases m.readonly) [
            | inl ro ↦ ground (append_assoc warnings (m.task_path ∷ []) (unenforced mounts), arith)
            | inr writable ↦ ground (append-nil warnings, arith)
          ]
