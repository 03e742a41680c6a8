-- ===== src/Steamcmd/Repair/Laws.antt =====
-- When an install is repaired, and what that may touch.
use nomad_driver_steamcmd.Base.{
  Bool-cases, Text, bytes, Bool, true, Option, [], ◌∷◌, ◌++◌, Error, ◌≡◌, refl, arith, inl, inr,
  All, contains_byte, nat_eq, text_eq,
}
use nomad_driver_steamcmd.FilePath.{slash, is_abs, clean_pieces, elements}
use nomad_driver_steamcmd.FilePath.Elements.{Plain}
use nomad_driver_steamcmd.FilePath.Clean.{IsName}
use nomad_driver_steamcmd.FilePath.Join.{elements-join}
use nomad_driver_steamcmd.Steamcmd.Patterns.{is_app_id}
use nomad_driver_steamcmd.Steamcmd.Patterns.AppId.{DigitsOnly, is_app_id_iff}
use nomad_driver_steamcmd.Steamcmd.Repair.{manifest_path, Hooks, install_with_repair}

-- The name of the manifest of an app.
abbrev pub manifest_name : Text → Text
manifest_name app_id = bytes "appmanifest_" ++ (app_id ++ bytes ".acf")

digits-Plain : (s tail : Text) → DigitsOnly s → Plain slash tail → Plain slash (s ++ tail)
unfolding contains_byte
digits-Plain [] tail h p = p
digits-Plain (b ∷ s) tail h p = ground (arith, digits-Plain s tail h.1 p, h.0)

manifest_name-Plain : (app_id : Text) → DigitsOnly app_id → Plain slash (manifest_name app_id)
unfolding contains_byte
manifest_name-Plain app_id h = digits-Plain app_id (bytes ".acf") h refl

manifest-names :
    (app_id : Text) → DigitsOnly app_id → All IsName (bytes "steamapps" ∷ manifest_name app_id ∷ [])
unfolding contains_byte
manifest-names app_id h = (
  record { is_plain = refl; not_empty = λ e. cc; not_dot = λ e. cc; not_dot_dot = λ e. cc },
  (
    record {
      is_plain = manifest_name-Plain app_id h;
      not_empty = λ e. cc;
      not_dot = λ e. cc;
      not_dot_dot = λ e. cc;
    },
    tt,
  ),
)

-- A path is the manifest of an app of the install directory.
abbrev pub IsManifest : Text → Text → Text → Type 0
IsManifest install_dir app_id path =
    elements path ≡ clean_pieces install_dir ++ (bytes "steamapps" ∷ manifest_name app_id ∷ [])

-- The manifest of an app whose id passes the guard is a file directly in the directory steamapps of
-- the install directory.
pub manifest_path-IsManifest :
    (install_dir app_id : Text)
    → is_abs install_dir ≡ true
    → is_app_id app_id ≡ true
    → IsManifest install_dir app_id (manifest_path install_dir app_id)
unfolding manifest_path
manifest_path-IsManifest install_dir app_id rooted guarded =
    elements-join install_dir (bytes "steamapps") (manifest_name app_id ∷ []) rooted
      (manifest-names app_id ((is_app_id_iff app_id).0 guarded).1)

module _ {S : Type 0} (hooks : Hooks S) (repair : Bool) (install_dir app_id : Text) (s : S) where
  -- The only file that an install may remove is the manifest of its app, and only if its id is digits:
  -- an `os.Remove` that does something else to any other path makes no difference.
  pub install_with_repair-remove :
      (remove' : Text → S → S × Option Error)
      → is_abs install_dir ≡ true
      → ((path : Text) (t : S)
          → DigitsOnly app_id
          → IsManifest install_dir app_id path
          → hooks.remove path t ≡ remove' path t)
      → install_with_repair hooks repair install_dir app_id s
        ≡ install_with_repair (record hooks { remove = remove' }) repair install_dir app_id s
  unfolding install_with_repair
  install_with_repair-remove remove' rooted agree = elim (Bool-cases (is_app_id app_id)) [
    | inr refused ↦ ground arith
    | inl guarded ↦ ground (
      arith,
      agree (manifest_path install_dir app_id) (hooks.run s).0 ((is_app_id_iff app_id).0 guarded).1
          (manifest_path-IsManifest install_dir app_id rooted guarded),
    )
  ]
