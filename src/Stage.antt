-- ===== src/Stage.antt =====
-- driver/stage.go: config_files, which are copied into install_dir before the launch. A Go map is an
-- association list, the latest value of a key first met.
pub mod Destination
pub mod Merge
pub mod Copy
pub mod Order
use nomad_driver_steamcmd.Base.{
  ℕ, ltb, nat_eq, Text, bytes, text_eq, ◌==◌, Bool, true, false, not, ◌&&◌, ◌||◌, Option, none,
  some, List, [], ◌∷◌, map, if◌then◌else◌, Result, ok, err, Error, stage_absolute, stage_escapes,
  staging,
}
use nomad_driver_steamcmd.Base.Effects.{Effect, pure, fail, lift, wrap, ◌>>=◌, ◌>>◌}
use nomad_driver_steamcmd.FilePath.{is_abs, join, dir, escapes}

abbrev pub StringMap : Type 0
StringMap = List (Text × Text)

unfoldable pub lookup : Text → StringMap → Option Text
lookup key [] = none
lookup key ((k, v) ∷ entries) = if k == key then some v else lookup key entries

-- `out[k] = v`
unfoldable pub store : Text → Text → StringMap → StringMap
store key value [] = (key, value) ∷ []
store key value ((k, v) ∷ entries) =
    let rest = store key value entries in if k == key then (key, value) ∷ entries else (k, v) ∷ rest

unfoldable pub store_all : StringMap → StringMap → StringMap
unfolding store
store_all [] out = out
store_all ((k, v) ∷ entries) out = store_all entries (store k v out)

unfoldable pub merge_into : List StringMap → StringMap → StringMap
unfolding store_all
merge_into [] out = out
merge_into (m ∷ maps) out = merge_into maps (store_all m out)

-- `mergeConfigFiles`
unfoldable pub merge_config_files : List StringMap → StringMap
unfolding merge_into
merge_config_files maps = merge_into maps []

-- `stageDestination`
unfoldable pub stage_destination : Text → Text → Result Text
stage_destination install_dir dst =
    let p = join (install_dir ∷ dst ∷ []) in
    if dst == [] || is_abs dst
    then err (stage_absolute dst)
    else if escapes install_dir p
    then err (stage_escapes dst)
    else ok p

-- The order of `sort.Strings`, by bytes.
unfoldable pub text_ltb : Text → Text → Bool
text_ltb s [] = false
text_ltb [] (b ∷ t) = true
text_ltb (a ∷ s) (b ∷ t) = let rest = text_ltb s t in if a == b then rest else ltb a b

unfoldable pub insert_sorted : Text → List Text → List Text
unfolding text_ltb
insert_sorted s [] = s ∷ []
insert_sorted s (t ∷ sorted) =
    let rest = insert_sorted s sorted in if text_ltb t s then t ∷ rest else s ∷ t ∷ sorted

unfoldable pub sort_strings : List Text → List Text
unfolding insert_sorted
sort_strings [] = []
sort_strings (s ∷ rest) = insert_sorted s (sort_strings rest)

-- The calls of packages os and io, over a state `S` of the file system. An open file is a number, a
-- temporary file its name.
pub record StageOs (S : Type 0) : Type 0 where
  pub open_file : Text → Effect S ℕ
  pub permissions : ℕ → Effect S ℕ
  pub close_file : ℕ → S → S
  pub mkdir_all : Text → Effect S (Unit {0})
  pub create_temp : Text → Text → Effect S Text
  pub copy : Text → ℕ → Effect S (Unit {0})
  pub close_temp : Text → Effect S (Unit {0})
  pub chmod : Text → ℕ → Effect S (Unit {0})
  pub rename : Text → Text → Effect S (Unit {0})
  pub remove : Text → Effect S (Unit {0})

module _ {S : Type 0} (os : StageOs S) where
  -- On an error the temporary file is removed; what `os.Remove` returns is ignored.
  unfoldable pub or_remove : Text → Effect S (Unit {0}) → Effect S (Unit {0})
  or_remove tmp m s =
      let (t, r) = m s in elim r [ ok _ ↦ (t, ok tt) | err e ↦ ((os.remove tmp t).0, err e) ]

  -- A failed `io.Copy` closes the temporary file first.
  unfoldable pub copy_to : Text → ℕ → Effect S (Unit {0})
  copy_to tmp file s =
      let (t, r) = os.copy tmp file s in
      elim r [ ok _ ↦ (t, ok tt) | err e ↦ ((os.close_temp tmp t).0, err e) ]

  unfoldable pub copy_opened : ℕ → Text → Effect S (Unit {0})
  unfolding or_remove copy_to
  copy_opened file dst = do
    mode ← os.permissions file
    os.mkdir_all (dir dst)
    tmp ← os.create_temp (dir dst) (bytes ".stage-*")
    or_remove tmp (copy_to tmp file)
    or_remove tmp (os.close_temp tmp)
    or_remove tmp (os.chmod tmp mode)
    os.rename tmp dst

  -- `copyFile`; the source is closed however it returns.
  unfoldable pub copy_file : Text → Text → Effect S (Unit {0})
  unfolding copy_opened
  copy_file src dst s =
      let (t, opened) = os.open_file src s in
      elim opened [
        | err e ↦ (t, err e)
        | ok file ↦ let (u, r) = copy_opened file dst t in (os.close_file file u, r)
      ]

  unfoldable pub stage_one : Text → Text → Text → Text → Effect S (Unit {0})
  unfolding copy_file stage_destination
  stage_one task_dir install_dir src dst = do
    dst_path ← lift (stage_destination install_dir dst)
    let src_path = if is_abs src then src else join (task_dir ∷ src ∷ [])
    wrap (staging src dst) (copy_file src_path dst_path)

  unfoldable pub stage_sources : Text → Text → StringMap → List Text → Effect S (Unit {0})
  unfolding stage_one lookup
  stage_sources task_dir install_dir files [] = pure tt
  stage_sources task_dir install_dir files (src ∷ srcs) = do
    stage_one task_dir install_dir src (elim (lookup src files) [ some dst ↦ dst | none ↦ [] ])
    stage_sources task_dir install_dir files srcs

  -- `stageConfigFiles`
  unfoldable pub stage_config_files : Text → Text → StringMap → Effect S (Unit {0})
  unfolding stage_sources sort_strings
  stage_config_files task_dir install_dir files =
      stage_sources task_dir install_dir files (sort_strings (map (λ entry. entry.0) files))
