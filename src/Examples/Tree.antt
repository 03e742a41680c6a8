-- ===== src/Examples/Tree.antt =====
-- Process 5 with a child 6.
use nomad_driver_steamcmd.Base.{
  ℕ, nat_eq, ◌==◌, ◌<◌, ◌-◌, Bool-cases, true, Option, none, some, some-eq, List, [], ◌∷◌,
  if◌then◌else◌, ◌≡◌, ◌↔◌, sym, subst, arith, inl, inr,
}
use nomad_driver_steamcmd.Process.Found.{is_in}
use nomad_driver_steamcmd.Process.Tree.{Descends, add_tree, add_tree-is_in}

abbrev children : ℕ → Option (List ℕ)
children pid = if pid == 5 then some (6 ∷ []) else none

abbrev rank : ℕ → ℕ
rank pid = 7 - pid

falls :
    (root child : ℕ) (pids : List ℕ)
    → children root ≡ some pids
    → is_in child pids ≡ true
    → rank child < rank root
unfolding is_in
falls root child pids e listed = elim (Bool-cases (root == 5)) [
  | inl same ↦
      let only : (6 ∷ []) ≡ pids = some-eq (ground (arith, e, same)) in
      let six = subst (λ ps. is_in child ps ≡ true) (sym only) listed in ground (arith, six, same)
  | inr other ↦ absurd (ground (arith, e, other))
]

add_tree-is_in_example : (is_in 6 (add_tree children 3 5) ≡ true) ↔ Descends children 6 5
add_tree-is_in_example = add_tree-is_in children rank falls 3 6 5 (omega arith)
