-- ===== src/Steamcmd/Repair.antt =====
-- `installWithRepair`: one retry after a stale manifest was removed.
pub mod Laws
use nomad_driver_steamcmd.Base.{
  ℕ, Text, bytes, Bool, true, false, not, ◌&&◌, ◌||◌, Option, none, some, List, [], ◌∷◌, ◌++◌,
  if◌then◌else◌, Error, retried,
}
use nomad_driver_steamcmd.FilePath.{join}
use nomad_driver_steamcmd.Steamcmd.Patterns.{is_app_id}
use nomad_driver_steamcmd.Steamcmd.Install.{InstallResult}

-- The file that steamcmd keeps about an installed app.
unfoldable pub manifest_path : Text → Text → Text
unfolding join
manifest_path install_dir app_id =
    join (install_dir ∷ bytes "steamapps" ∷ (bytes "appmanifest_" ++ (app_id ++ bytes ".acf")) ∷ [])

abbrev pub Outcome : Type 0
Outcome = Option InstallResult × Option Error

abbrev pub is_stale_result : Option InstallResult → Bool
is_stale_result none = false
is_stale_result (some r) = r.stale_manifest

abbrev pub succeeded : Option Error → Bool
succeeded none = true
succeeded (some _) = false

abbrev pub noted : Text → Option Error → Option Error
noted manifest none = none
noted manifest (some e) = some (retried e manifest)

-- What the function is given to work with, over a state `S` of the system: the install itself,
-- whether the context has ended, `os.Remove`, and the report to the caller.
pub record Hooks (S : Type 0) : Type 0 where
  pub run : S → S × Outcome
  pub done : S → Bool
  pub remove : Text → S → S × Option Error
  pub on_repair : Text → S → S

module _ {S : Type 0} (hooks : Hooks S) where
  open hooks use {run, done, remove, on_repair}

  -- The second run, after the manifest is gone.
  unfoldable pub retry : Text → S → S × Outcome
  retry manifest s =
      let (s', out) = run (on_repair manifest s) in (s', (out.0, noted manifest out.1))

  unfoldable pub install_with_repair : Bool → Text → Text → S → S × Outcome
  unfolding retry
  install_with_repair repair install_dir app_id s =
      let (s₁, out) = run s in
      if succeeded out.1 || not repair || not (is_stale_result out.0) || done s₁
      then (s₁, out)
      else if not (is_app_id app_id)
      then (s₁, out)
      else let manifest = manifest_path install_dir app_id in
        let (s₂, refused) = remove manifest s₁ in
        elim refused [ some _ ↦ (s₂, out) | none ↦ retry manifest s₂ ]
