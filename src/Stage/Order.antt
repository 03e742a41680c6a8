-- ===== src/Stage/Order.antt =====
-- A Go map gives its entries in any order, which makes no difference to what is staged.
use nomad_driver_steamcmd.Base.{
  nat_eq, Text, text_eq, text_beq_iff, ◌==◌, true, false, none, some, List, [], ◌∷◌, map, ◌≡◌, refl,
  ap, ◌∙◌, arith,
}
use nomad_driver_steamcmd.Base.Effects.{◌>>◌}
use nomad_driver_steamcmd.Stage.{
  StringMap, lookup, text_ltb, insert_sorted, sort_strings, StageOs, stage_one, stage_sources,
  stage_config_files,
}

-- Two orders of the entries of one map, in which no key is twice.
pub data Reorders : StringMap → StringMap → Type 0 where
  same : (m : StringMap) → Reorders m m
  behind : (k v : Text) (m m' : StringMap) → Reorders m m' → Reorders ((k, v) ∷ m) ((k, v) ∷ m')
  swap :
      (k v k' v' : Text) (m : StringMap)
      → (k == k') ≡ false
      → Reorders ((k, v) ∷ (k', v') ∷ m) ((k', v') ∷ (k, v) ∷ m)
  twice : (m m' m'' : StringMap) → Reorders m m' → Reorders m' m'' → Reorders m m''

text_ltb_irrefl : (s : Text) → text_ltb s s ≡ false
unfolding text_ltb
text_ltb_irrefl [] = refl
text_ltb_irrefl (a ∷ s) = ground (arith, text_ltb_irrefl s)

text_ltb_asym : (s t : Text) → text_ltb s t ≡ true → text_ltb t s ≡ false
unfolding text_ltb
text_ltb_asym s [] h = cc
text_ltb_asym [] (b ∷ t) h = refl
text_ltb_asym (a ∷ s) (b ∷ t) h = ground (arith, text_ltb_asym s t)

text_ltb_total : (s t : Text) → text_ltb s t ≡ false → text_ltb t s ≡ false → s ≡ t
unfolding text_ltb
text_ltb_total [] [] h k = refl
text_ltb_total [] (b ∷ t) h k = cc
text_ltb_total (a ∷ s) [] h k = cc
text_ltb_total (a ∷ s) (b ∷ t) h k = ground (arith, text_ltb_total s t)

-- Nothing stands between.
text_ltb_trans : (s t u : Text) → text_ltb t s ≡ false → text_ltb t u ≡ true → text_ltb s u ≡ true
unfolding text_ltb
text_ltb_trans s t [] h k = cc
text_ltb_trans [] t (c ∷ u) h k = refl
text_ltb_trans (a ∷ s) [] (c ∷ u) h k = cc
text_ltb_trans (a ∷ s) (b ∷ t) (c ∷ u) h k = ground (arith, text_ltb_trans s t u)

insert_sorted_comm :
    (a b : Text) (l : List Text)
    → insert_sorted a (insert_sorted b l) ≡ insert_sorted b (insert_sorted a l)
unfolding insert_sorted
insert_sorted_comm a b [] = ground (arith, text_ltb_asym a b, text_ltb_asym b a, text_ltb_total a b)
insert_sorted_comm a b (t ∷ l) = ground (
  arith,
  insert_sorted_comm a b l,
  text_ltb_asym a b,
  text_ltb_asym b a,
  text_ltb_total a b,
  text_ltb_trans b t a,
  text_ltb_trans a t b,
)

-- The sources of a map.
abbrev keys : StringMap → List Text
keys files = map (λ entry. entry.0) files

sort_strings-Reorders :
    (m m' : StringMap) → Reorders m m' → sort_strings (keys m) ≡ sort_strings (keys m')
unfolding sort_strings
sort_strings-Reorders m m' (same _) = refl
sort_strings-Reorders m m' (behind k v rest rest' r) =
    ap (insert_sorted k) (sort_strings-Reorders rest rest' r)
sort_strings-Reorders m m' (swap k v k' v' rest differ) =
    insert_sorted_comm k k' (sort_strings (keys rest))
sort_strings-Reorders m m' (twice _ between _ r r') =
    sort_strings-Reorders m between r ∙ sort_strings-Reorders between m' r'

lookup-Reorders : (key : Text) (m m' : StringMap) → Reorders m m' → lookup key m ≡ lookup key m'
unfolding lookup
lookup-Reorders key m m' (same _) = refl
lookup-Reorders key m m' (behind k v rest rest' r) =
    ground (arith, lookup-Reorders key rest rest' r)
lookup-Reorders key m m' (swap k v k' v' rest differ) =
    ground (arith, text_beq_iff k key, text_beq_iff k' key, text_beq_iff k k')
lookup-Reorders key m m' (twice _ between _ r r') =
    lookup-Reorders key m between r ∙ lookup-Reorders key between m' r'

module _ {S : Type 0} (os : StageOs S) (task_dir install_dir : Text) where
  stage_sources-agree :
      (files files' : StringMap) (srcs : List Text)
      → ((src : Text) → lookup src files ≡ lookup src files')
      → stage_sources os task_dir install_dir files srcs
        ≡ stage_sources os task_dir install_dir files' srcs
  unfolding stage_sources
  stage_sources-agree files files' [] agree = refl
  stage_sources-agree files files' (src ∷ srcs) agree =
      let rest = stage_sources-agree files files' srcs agree in
      ap
        (λ d.
          stage_one os task_dir install_dir src (elim d [ some dst ↦ dst | none ↦ [] ])
          >> stage_sources os task_dir install_dir files srcs)
        (agree src)
      ∙ ap
          (λ m.
            stage_one os task_dir install_dir src
              (elim (lookup src files') [ some dst ↦ dst | none ↦ [] ])
            >> m)
          rest

  -- Staging depends on the entries of config_files alone: in whatever order the map gives them, the
  -- same calls are made in the same order, with the same outcome.
  pub stage_config_files-Reorders :
      (files files' : StringMap)
      → Reorders files files'
      → stage_config_files os task_dir install_dir files
        ≡ stage_config_files os task_dir install_dir files'
  unfolding stage_config_files
  stage_config_files-Reorders files files' r =
      stage_sources-agree files files' (sort_strings (keys files))
        (λ src. lookup-Reorders src files files' r)
      ∙ ap (stage_sources os task_dir install_dir files') (sort_strings-Reorders files files' r)
