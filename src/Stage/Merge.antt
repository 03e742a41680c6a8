-- ===== src/Stage/Merge.antt =====
-- Later config_files entries win.
use mathlib.Core.Bool.{false≢true}
use nomad_driver_steamcmd.Base.{
  text_beq, Text, text_eq, text_beq_iff, ◌==◌, Bool-cases, true, false, Option, none, some, List,
  [], ◌∷◌, ◌≡◌, refl, sym, ap, ◌∙◌, inl, inr, if◌then◌else◌,
}
use nomad_driver_steamcmd.Stage.{
  StringMap, lookup, store, store_all, merge_into, merge_config_files,
}

abbrev first_of : Option Text → Option Text → Option Text
first_of none y = y
first_of (some x) y = some x

-- The value of a key in the last map that has it, and, in a map with the key twice, the last.
unfoldable pub latest_in : Text → StringMap → Option Text
latest_in key [] = none
latest_in key ((k, v) ∷ entries) =
    first_of (latest_in key entries) (if k == key then some v else none)

unfoldable pub latest : Text → List StringMap → Option Text
unfolding latest_in
latest key [] = none
latest key (m ∷ maps) = first_of (latest key maps) (latest_in key m)

beq-agree : (j k key : Text) → j ≡ k → text_beq j key ≡ text_beq k key
beq-agree j k key e = ap (λ x. text_beq x key) e

beq-differ :
    (j k key : Text) → text_beq j k ≡ false → text_beq k key ≡ true → text_beq j key ≡ false
beq-differ j k key differ here = elim (Bool-cases (text_beq j key)) [
  | inr other ↦ other
  | inl too ↦ absurd (
      false≢true (
        sym differ
        ∙ (text_beq_iff j k).1 ((text_beq_iff j key).0 too ∙ sym ((text_beq_iff k key).0 here))))
]

lookup-store :
    (key k v : Text) (out : StringMap)
    → lookup key (store k v out) ≡ (if k == key then some v else lookup key out)
unfolding lookup store
lookup-store key k v [] = refl
lookup-store key k v ((k', v') ∷ entries) = elim (Bool-cases (k' == k)) [
  | inl same ↦
      rw (same, beq-agree k' k key ((text_beq_iff k' k).0 same))
        (elim (Bool-cases (k == key)) [ inl here ↦ rw here refl | inr other ↦ rw other refl ])
  | inr differ ↦
      rw (differ, lookup-store key k v entries)
        (elim (Bool-cases (k == key)) [
          | inl here ↦ rw (here, beq-differ k' k key differ here) refl
          | inr other ↦ rw other refl
        ])
]

first_of_assoc : (x y z : Option Text) → first_of x (first_of y z) ≡ first_of (first_of x y) z
first_of_assoc none y z = refl
first_of_assoc (some x) y z = refl

lookup-store_all :
    (key : Text) (m out : StringMap)
    → lookup key (store_all m out) ≡ first_of (latest_in key m) (lookup key out)
unfolding store_all latest_in
lookup-store_all key [] out = refl
lookup-store_all key ((k, v) ∷ m) out =
    lookup-store_all key m (store k v out)
    ∙ ap (first_of (latest_in key m)) (lookup-store key k v out ∙ stored)
    ∙ first_of_assoc (latest_in key m) (if k == key then some v else none) (lookup key out)
  where
    stored :
        (if k == key then some v else lookup key out)
        ≡ first_of (if k == key then some v else none) (lookup key out)
    stored = elim (Bool-cases (k == key)) [ inl here ↦ rw here refl | inr other ↦ rw other refl ]

lookup-merge_into :
    (key : Text) (maps : List StringMap) (out : StringMap)
    → lookup key (merge_into maps out) ≡ first_of (latest key maps) (lookup key out)
unfolding merge_into latest
lookup-merge_into key [] out = refl
lookup-merge_into key (m ∷ maps) out =
    lookup-merge_into key maps (store_all m out)
    ∙ ap (first_of (latest key maps)) (lookup-store_all key m out)
    ∙ first_of_assoc (latest key maps) (latest_in key m) (lookup key out)

-- The merged map gives a source the destination that the last of the maps which name the source
-- gives it, and no destination if none of them names it.
pub merge_config_files-latest :
    (key : Text) (maps : List StringMap) → lookup key (merge_config_files maps) ≡ latest key maps
unfolding merge_config_files lookup
merge_config_files-latest key maps = lookup-merge_into key maps [] ∙ unit (latest key maps)
  where
    unit : (x : Option Text) → first_of x none ≡ x
    unit none = refl
    unit (some x) = refl
