-- ===== src/Stage/Destination.antt =====
-- Where a config file may be copied.
use nomad_driver_steamcmd.Base.{Text, text_eq, ◌==◌, true, false, [], ◌∷◌, ok, ◌≡◌, ◌↔◌, arith}
use nomad_driver_steamcmd.FilePath.{join, is_abs, clean_pieces}
use nomad_driver_steamcmd.FilePath.Inside.{IsBelow, escapes-iff-IsBelow}
use nomad_driver_steamcmd.FilePath.Join.{is_abs-join}
use nomad_driver_steamcmd.Stage.{stage_destination}

-- For an absolute install directory, a destination is accepted exactly when it is a relative path,
-- not empty, that stays below the install directory; it is then the two joined.
pub stage_destination-IsBelow :
    (install_dir dst : Text)
    → is_abs install_dir ≡ true
    → let p = join (install_dir ∷ dst ∷ []) in
      (stage_destination install_dir dst ≡ ok p) ↔ (
        ((dst == []) ≡ false)
        × (is_abs dst ≡ false)
        × IsBelow (clean_pieces install_dir) (clean_pieces p))
unfolding stage_destination
stage_destination-IsBelow install_dir dst rooted =
    let p = join (install_dir ∷ dst ∷ []) in
    let decides = escapes-iff-IsBelow install_dir p rooted (is_abs-join install_dir dst rooted) in
    (
      λ h. (ground arith, ground arith, decides.0 (ground arith)),
      λ (named, relative, below). ground (arith, named, relative, decides.1 below),
    )
