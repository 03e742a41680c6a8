-- ===== src/Examples/Mounts.antt =====
-- Mounts over a file system that is the list of its links, the latest first.
use nomad_driver_steamcmd.Base.{
  nat_eq, Text, bytes, text_beq, text_eq, ◌==◌, trim_left, true, false, Option, some, none, List,
  [], ◌∷◌, Result, ok, err, Error, system, ◌≡◌, ◌↔◌, ◌⊎◌, refl, subst, inl, inr, arith,
  if◌then◌else◌,
}
use nomad_driver_steamcmd.Base.Effects.{Effect}
use nomad_driver_steamcmd.FilePath.{slash, is_abs, join, clean_pieces, escapes}
use nomad_driver_steamcmd.FilePath.Inside.{IsBelow, escapes-iff-IsBelow}
use nomad_driver_steamcmd.Mounts.{
  Os, FileKind, symlink, directory, other, MountConfig, mount_target, link_mount,
}
use nomad_driver_steamcmd.Mounts.Target.{mount_target-IsBelow}
use nomad_driver_steamcmd.Mounts.Link.{link_mount-links}

abbrev Links : Type 0
Links = List (Text × Text)

unfoldable link_at : Text → Links → Option Text
link_at path [] = none
link_at path ((from, to) ∷ links) =
    let rest = link_at path links in if from == path then some to else rest

abbrev missing : Error
missing = system (bytes "no such file or directory")

abbrev found : Option Text → Result FileKind
found none = err missing
found (some to) = ok symlink

abbrev read_link : Option Text → Result Text
read_link none = err missing
read_link (some to) = ok to

unfoldable unlinked : Text → Links → Links
unlinked path [] = []
unlinked path ((from, to) ∷ links) =
    let rest = unlinked path links in if from == path then rest else (from, to) ∷ rest

abbrev os : Os Links
os = record {
  mkdir_all = λ path links. (links, ok tt);
  lstat = λ path links. found (link_at path links);
  readlink = λ path links. read_link (link_at path links);
  remove = λ path links. (unlinked path links, ok tt);
  make_symlink = λ to from links. ((from, to) ∷ links, ok tt);
}

-- A file stands where the link should.
abbrev file_there : Os Links
file_there = record os { lstat = λ path links. ok other }

abbrev data_target : Text
data_target = bytes "/alloc/task/data"

abbrev stale : Links
stale = (data_target, bytes "/csi/old") ∷ []

relinked :
    link_mount os (bytes "/csi/new") data_target stale
    ≡ ((data_target, bytes "/csi/new") ∷ [], ok tt)
unfolding link_mount link_at unlinked text_beq
relinked = refl

-- A removal that does nothing unless it finds a link.
abbrev removed : Text → Option Text → Links → Links
removed path none links = links
removed path (some to) links = unlinked path links

abbrev careful_remove : Text → Effect Links (Unit {0})
careful_remove path links = (removed path (link_at path links) links, ok tt)

removed-found :
    (path : Text) (o : Option Text) (links : Links)
    → (found o ≡ ok symlink) ⊎ (found o ≡ ok directory)
    → os.remove path links ≡ (removed path o links, ok tt)
removed-found path none links (inl h) = cc
removed-found path none links (inr h) = cc
removed-found path (some to) links h = refl

linked-reads :
    (t u : Links)
    → os.make_symlink (bytes "/csi/new") data_target t ≡ (u, ok tt)
    → os.readlink data_target u ≡ ok (bytes "/csi/new")
unfolding link_at text_beq
linked-reads t u h =
    let same : (data_target, bytes "/csi/new") ∷ t ≡ u = ground arith in
    subst (λ w. os.readlink data_target w ≡ ok (bytes "/csi/new")) same refl

link_mount-links_example :
    os.readlink data_target ((data_target, bytes "/csi/new") ∷ []) ≡ ok (bytes "/csi/new")
unfolding link_mount link_at unlinked text_beq
link_mount-links_example =
    link_mount-links os (bytes "/csi/new") data_target stale linked-reads
      ((data_target, bytes "/csi/new") ∷ []) refl

mount_target-IsBelow_example :
    (mount_target (bytes "/alloc/task") (bytes "/../etc")
      ≡ ok
          (join (bytes "/alloc/task" ∷ trim_left (λ b. nat_eq.beq b slash) (bytes "/../etc") ∷ [])))
    ↔ IsBelow (clean_pieces (bytes "/alloc/task")) (
        clean_pieces
          (join (bytes "/alloc/task" ∷ trim_left (λ b. nat_eq.beq b slash) (bytes "/../etc") ∷ [])))
unfolding is_abs
mount_target-IsBelow_example = mount_target-IsBelow (bytes "/alloc/task") (bytes "/../etc") refl

escapes-iff-IsBelow_example :
    (escapes (bytes "/srv/app") (bytes "/srv/app/../other") ≡ false)
    ↔ IsBelow (clean_pieces (bytes "/srv/app")) (clean_pieces (bytes "/srv/app/../other"))
unfolding is_abs
escapes-iff-IsBelow_example =
    escapes-iff-IsBelow (bytes "/srv/app") (bytes "/srv/app/../other") refl refl

abbrev mounts : List (Option MountConfig)
mounts =
    some (record { host_path = bytes "/csi/a"; task_path = bytes "a"; readonly = true })
    ∷ none
    ∷ some (record { host_path = bytes "/csi/b"; task_path = []; readonly = true })
    ∷ some (record { host_path = bytes "/csi/c"; task_path = bytes "/c"; readonly = false })
    ∷ []
