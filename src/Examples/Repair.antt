-- ===== src/Examples/Repair.antt =====
-- A repair of a stale manifest, over a state that logs what was done.
use nomad_driver_steamcmd.Base.{
  ℕ, suc, Text, bytes, nat_eq, text_beq, ◌==◌, split, true, false, Option, some, none, List, [],
  ◌∷◌, Error, system, incomplete, pos, ◌≡◌, ap, sym, refl, if◌then◌else◌, join_with,
}
use nomad_driver_steamcmd.FilePath.{is_abs, clean, clean_pieces, elements, render, keep, back_up}
use nomad_driver_steamcmd.Steamcmd.Install.{InstallResult}
use nomad_driver_steamcmd.Steamcmd.Repair.{manifest_path, Hooks, install_with_repair}
use nomad_driver_steamcmd.Steamcmd.Repair.Laws.{install_with_repair-remove}

-- The number of runs, and the files removed.
abbrev World : Type 0
World = ℕ × List Text

abbrev stale : InstallResult
stale = record {
  success = false;
  saw_auth_failure = false;
  stale_manifest = true;
  exit_code = pos 8;
  message = bytes "state is 0x6";
}

-- The first run finds a stale manifest, the second one succeeds.
abbrev hooks : Hooks World
hooks = record {
  run = λ w. (
    (suc w.0, w.1),
    (some stale, if w.0 == 0 then some (incomplete (bytes "state is 0x6")) else none),
  );
  done = λ w. false;
  remove = λ path w. ((w.0, path ∷ w.1), none);
  on_repair = λ path w. w;
}

abbrev start : World
start = (0, [])

abbrev manifest : Text
manifest = bytes "/srv/app/steamapps/appmanifest_2394010.acf"

manifest_path-palworld : manifest_path (bytes "/srv/app") (bytes "2394010") ≡ manifest
unfolding manifest_path clean render clean_pieces keep back_up is_abs split join_with text_beq
manifest_path-palworld = refl

-- An `os.Remove` that refuses the root serves as well.
abbrev unless_root : List Text → World × Option Error → World → World × Option Error
unless_root [] removed w = (w, some (system (bytes "is a directory")))
unless_root (_ ∷ _) removed w = removed

abbrev guarded_remove : Text → World → World × Option Error
guarded_remove path w = unless_root (elements path) (hooks.remove path w) w

install_with_repair-remove_example :
    install_with_repair hooks true (bytes "/srv/app") (bytes "2394010") start
    ≡ install_with_repair
        (record hooks { remove = guarded_remove })
        true
        (bytes "/srv/app")
        (bytes "2394010")
        start
unfolding is_abs clean_pieces keep back_up split text_beq
install_with_repair-remove_example =
    install_with_repair-remove hooks true (bytes "/srv/app") (bytes "2394010") start guarded_remove
      refl (λ path t digits m. ap (λ l. unless_root l ((t.0, path ∷ t.1), none) t) (sym m))
