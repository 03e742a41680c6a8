-- ===== src/Mounts/Link.antt =====
-- What linking a mount may remove, and what stands at the target afterwards.
use nomad_driver_steamcmd.Base.{
  Text, text_eq, text_beq_iff, Bool, Bool-cases, true, false, Result, ok, err, not_a_directory, ◌≡◌,
  ◌⊎◌, refl, ap, ◌∙◌, arith, inl, inr,
}
use nomad_driver_steamcmd.Base.Effects.{Effect}
use nomad_driver_steamcmd.FilePath.{dir}
use nomad_driver_steamcmd.Mounts.{
  FileKind, symlink, directory, other, Os, links_to, clear_target, link_mount,
}

module _ {S : Type 0} (os : Os S) (host_path target : Text) (s : S) where
  -- Real content is not clobbered: a file that is neither a link nor a directory is left as it is, and
  -- the mount fails.
  pub link_mount-other :
      (t : S)
      → os.mkdir_all (dir target) s ≡ (t, ok tt)
      → os.lstat target t ≡ ok other
      → link_mount os host_path target s ≡ (t, err (not_a_directory target))
  unfolding link_mount
  link_mount-other t made found = ground arith

  clear_target-remove :
      (remove' : Text → Effect S (Unit {0}))
      → (t : S) → (kind : Result FileKind) → os.lstat target t ≡ kind
      → ((os.lstat target t ≡ ok symlink) ⊎ (os.lstat target t ≡ ok directory)
          → os.remove target t ≡ remove' target t)
      → clear_target os host_path target t
        ≡ clear_target (record os { remove = remove' }) host_path target t
  unfolding clear_target links_to
  clear_target-remove remove' t (err e) found agree = ground arith
  clear_target-remove remove' t (ok other) found agree = ground arith
  clear_target-remove remove' t (ok symlink) found agree =
      let same = agree (inl found) in ground arith
  clear_target-remove remove' t (ok directory) found agree =
      let same = agree (inr found) in ground arith

  -- `os.Remove` is called for the target alone, and only where a link or a directory stands: one that
  -- does something else anywhere else makes no difference.
  pub link_mount-remove :
      (remove' : Text → Effect S (Unit {0}))
      → ((t : S)
          → (os.lstat target t ≡ ok symlink) ⊎ (os.lstat target t ≡ ok directory)
          → os.remove target t ≡ remove' target t)
      → link_mount os host_path target s
        ≡ link_mount (record os { remove = remove' }) host_path target s
  unfolding link_mount
  link_mount-remove remove' agree =
      let t = (os.mkdir_all (dir target) s).0 in
      let same = clear_target-remove remove' t (os.lstat target t) refl (agree t) in ground arith

  clear_target-linked :
      (kind : Result FileKind)
      → (t u : S) → os.lstat target t ≡ kind
      → clear_target os host_path target t ≡ (u, ok true)
      → os.readlink target u ≡ ok host_path
  unfolding clear_target links_to
  clear_target-linked (err e) t u found h = ground arith
  clear_target-linked (ok other) t u found h = ground arith
  clear_target-linked (ok symlink) t u found h =
      elim (Bool-cases (links_to os target host_path t)) [
        | inl linked ↦
            let stays : t ≡ u = ground arith in
            rw stays at (links_to-readlink (os.readlink target t) t refl linked)
        | inr stale ↦ ground arith
      ]
    where
      links_to-readlink :
          (r : Result Text)
          → (v : S) → os.readlink target v ≡ r
          → links_to os target host_path v ≡ true
          → os.readlink target v ≡ ok host_path
      links_to-readlink (ok cur) v read same =
          read ∙ ap ok ((text_beq_iff cur host_path).0 (ground arith))
      links_to-readlink (err e) v read same = ground arith
  clear_target-linked (ok directory) t u found h = ground arith

  -- When linking succeeds the target is a link to the host path, given that `os.Symlink` makes one.
  pub link_mount-links :
      ((t u : S)
        → os.make_symlink host_path target t ≡ (u, ok tt)
        → os.readlink target u ≡ ok host_path)
      → (t : S) → link_mount os host_path target s ≡ (t, ok tt)
      → os.readlink target t ≡ ok host_path
  unfolding link_mount
  link_mount-links links t h =
      cleared (clear_target os host_path target (os.mkdir_all (dir target) s).0).1 refl
    where
      cleared :
          (r : Result Bool)
          → (clear_target os host_path target (os.mkdir_all (dir target) s).0).1 ≡ r
          → os.readlink target t ≡ ok host_path
      cleared (err e) f = ground arith
      cleared (ok true) f =
          clear_target-linked _ (os.mkdir_all (dir target) s).0 t refl (ground arith)
      cleared (ok false) f =
          links (clear_target os host_path target (os.mkdir_all (dir target) s).0).0 t
            (ground arith)
