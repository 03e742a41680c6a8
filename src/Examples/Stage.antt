-- ===== src/Examples/Stage.antt =====
-- Copies of config files over a file system that gives every path its text.
use mathlib.Core.Bool.{false≢true}
use nomad_driver_steamcmd.Base.{
  nat_eq, Text, bytes, text_beq, text_eq, text_beq_iff, Bool-cases, ◌==◌, false, List, [], ◌∷◌, ok,
  err, ok-injective, Error, system, ◌≡◌, ◌≢◌, ◌↔◌, refl, sym, arith, inl, inr, if◌then◌else◌,
}
use nomad_driver_steamcmd.FilePath.{is_abs, join, clean_pieces}
use nomad_driver_steamcmd.FilePath.Inside.{IsBelow}
use nomad_driver_steamcmd.Stage.{
  StageOs, StringMap, merge_config_files, lookup, sort_strings, stage_destination, copy_file,
  stage_config_files,
}
use nomad_driver_steamcmd.Stage.Destination.{stage_destination-IsBelow}
use nomad_driver_steamcmd.Stage.Merge.{latest, merge_config_files-latest}
use nomad_driver_steamcmd.Stage.Order.{swap, stage_config_files-Reorders}
use nomad_driver_steamcmd.Stage.Copy.{LeavesOthers, copy_file-fails}

abbrev Files : Type 0
Files = Text → Text

abbrev cross_device : Error
cross_device = system (bytes "invalid cross-device link")

abbrev tmp_name : Text
tmp_name = bytes "/srv/.stage-1"

abbrev written : Text → Text → Files → Files
written path text files p = if p == path then text else files p

-- No file can be renamed.
abbrev os : StageOs Files
os = record {
  open_file = λ path files. (files, ok 3);
  permissions = λ file files. (files, ok 384);
  close_file = λ file files. files;
  mkdir_all = λ folder files. (files, ok tt);
  create_temp = λ folder pattern files. (written tmp_name [] files, ok tmp_name);
  copy = λ tmp file files. (written tmp (bytes "port=1") files, ok tt);
  close_temp = λ tmp files. (files, ok tt);
  chmod = λ tmp mode files. (files, ok tt);
  rename = λ tmp new files. (files, err cross_device);
  remove = λ tmp files. (written tmp [] files, ok tt);
}

abbrev content : Text → Files → Text
content path files = files path

written-other :
    (path tmp text : Text) (files : Files) → path ≢ tmp → written tmp text files path ≡ files path
written-other path tmp text files h = elim (Bool-cases (path == tmp)) [
  | inl same ↦ absurd (h ((text_beq_iff path tmp).0 same))
  | inr other ↦ rw other refl
]

others : LeavesOthers os content
others = record {
  open_file = λ path src s. refl;
  permissions = λ path file s. refl;
  close_file = λ path file s. refl;
  mkdir_all = λ path folder s. refl;
  create_temp =
      λ path folder pattern s new. written-other path tmp_name [] s (λ e. new (rw e refl));
  copy = λ path tmp file s h. written-other path tmp (bytes "port=1") s h;
  close_temp = λ path tmp s. refl;
  chmod = λ path tmp mode s h. refl;
  remove = λ path tmp s h. written-other path tmp [] s h;
  rename_fails = λ path tmp new s t e h. ground arith;
}

abbrev before : Files
before path = bytes "port=0"

copy_file-fails_example :
    (copy_file os (bytes "/alloc/port.cfg") (bytes "/srv/port.cfg") before).0
      (bytes "/srv/port.cfg")
    ≡ bytes "port=0"
unfolding copy_file text_beq
copy_file-fails_example =
    copy_file-fails os content others (bytes "/srv/port.cfg") (bytes "/alloc/port.cfg")
      (λ s h. false≢true ((text_beq_iff (bytes "/srv/port.cfg") tmp_name).1 (sym (ok-injective h))))
      before (copy_file os (bytes "/alloc/port.cfg") (bytes "/srv/port.cfg") before).0 cross_device
      refl

abbrev maps : List StringMap
maps = ((bytes "a", bytes "1") ∷ (bytes "b", bytes "2") ∷ []) ∷ ((bytes "a", bytes "3") ∷ []) ∷ []

merge_config_files-latest_example :
    lookup (bytes "a") (merge_config_files maps) ≡ latest (bytes "a") maps
merge_config_files-latest_example = merge_config_files-latest (bytes "a") maps

sorted :
    sort_strings (bytes "b" ∷ bytes "ab" ∷ bytes "a" ∷ []) ≡ bytes "a" ∷ bytes "ab" ∷ bytes "b" ∷ []
unfolding sort_strings
sorted = refl

stage_destination-IsBelow_example :
    (stage_destination (bytes "/srv") (bytes "cfg/../a")
      ≡ ok (join (bytes "/srv" ∷ bytes "cfg/../a" ∷ [])))
    ↔ ((text_beq (bytes "cfg/../a") [] ≡ false)
        × (is_abs (bytes "cfg/../a") ≡ false)
        × IsBelow
            (clean_pieces (bytes "/srv"))
            (clean_pieces (join (bytes "/srv" ∷ bytes "cfg/../a" ∷ []))))
unfolding is_abs
stage_destination-IsBelow_example = stage_destination-IsBelow (bytes "/srv") (bytes "cfg/../a") refl

-- Two entries in both orders.
stage_config_files-Reorders_example :
    stage_config_files os
      (bytes "/alloc")
      (bytes "/srv")
      ((bytes "a", bytes "x") ∷ (bytes "b", bytes "y") ∷ [])
    ≡ stage_config_files os
        (bytes "/alloc")
        (bytes "/srv")
        ((bytes "b", bytes "y") ∷ (bytes "a", bytes "x") ∷ [])
unfolding text_beq
stage_config_files-Reorders_example =
    stage_config_files-Reorders os (bytes "/alloc") (bytes "/srv")
      ((bytes "a", bytes "x") ∷ (bytes "b", bytes "y") ∷ [])
      ((bytes "b", bytes "y") ∷ (bytes "a", bytes "x") ∷ [])
      (swap (bytes "a") (bytes "x") (bytes "b") (bytes "y") [] refl)
