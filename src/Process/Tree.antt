-- ===== src/Process/Tree.antt =====
-- driver/stats.go: the launched process with its descendants.
use nomad_driver_steamcmd.Base.{
  ℕ, zero, suc, nat_eq, nat_beq_iff, ◌==◌, ◌<◌, Bool, Bool-cases, true, ◌||◌, Option, none, some,
  List, [], ◌∷◌, ◌++◌, if◌then◌else◌, ◌≡◌, ◌↔◌, refl, sym, arith, inl, inr, subst,
}
use nomad_driver_steamcmd.Process.Found.{is_in}

unfoldable pub add_all : (ℕ → List ℕ) → List ℕ → List ℕ
add_all add [] = []
add_all add (pid ∷ pids) = add pid ++ add_all add pids

-- `addTree`; `children` is gopsutil's `Children`, which also fails for a process that has none. The
-- fuel bounds the depth of the tree.
unfoldable pub add_tree : (ℕ → Option (List ℕ)) → ℕ → ℕ → List ℕ
unfolding add_all
add_tree children zero pid = []
add_tree children (suc fuel) pid =
    pid ∷ elim (children pid) [ none ↦ [] | some pids ↦ add_all (add_tree children fuel) pids ]

-- What `members` adds: nothing if `process.NewProcess` fails.
unfoldable pub tree_of : (ℕ → Bool) → (ℕ → Option (List ℕ)) → ℕ → ℕ → Option (List ℕ)
unfolding add_tree
tree_of is_there children fuel root =
    if is_there root then some (add_tree children fuel root) else none

-- A process, its children, and theirs.
pub data Descends (children : ℕ → Option (List ℕ)) : ℕ → ℕ → Type 0 where
  itself : (pid : ℕ) → Descends children pid pid
  through :
      (pid child root : ℕ) (pids : List ℕ)
      → children root ≡ some pids
      → is_in child pids ≡ true
      → Descends children pid child
      → Descends children pid root

pub is_in-append :
    (pid : ℕ) (xs ys : List ℕ) → is_in pid (xs ++ ys) ≡ (is_in pid xs || is_in pid ys)
unfolding is_in
is_in-append pid [] ys = refl
is_in-append pid (x ∷ xs) ys = ground (arith, is_in-append pid xs ys)

-- What is added for the processes of a list is added for one of them.
is_in-add_all :
    (add : ℕ → List ℕ) (pid : ℕ) (pids : List ℕ)
    → is_in pid (add_all add pids) ≡ true
    → (child : ℕ) × (is_in child pids ≡ true) × (is_in pid (add child) ≡ true)
unfolding is_in add_all
is_in-add_all add pid [] h = cc
is_in-add_all add pid (p ∷ pids) h = elim (Bool-cases (is_in pid (add p))) [
  | inl here ↦ (p, ground (arith, (nat_beq_iff p p).1 refl), here)
  | inr other ↦
      let (child, listed, found) =
        is_in-add_all add pid pids (ground (arith, is_in-append pid (add p) (add_all add pids))) in
      (child, ground (arith, listed), found)
]

add_all-is_in :
    (add : ℕ → List ℕ) (pid child : ℕ) (pids : List ℕ)
    → is_in child pids ≡ true
    → is_in pid (add child) ≡ true
    → is_in pid (add_all add pids) ≡ true
unfolding is_in add_all
add_all-is_in add pid child [] listed found = cc
add_all-is_in add pid child (p ∷ pids) listed found = elim (Bool-cases (p == child)) [
  | inl same ↦ ground (
    arith,
    is_in-append pid (add p) (add_all add pids),
    subst (λ c. is_in pid (add c) ≡ true) (sym ((nat_beq_iff p child).0 same)) found,
  )
  | inr other ↦
      ground (arith, is_in-append pid (add p) (add_all add pids), add_all-is_in add pid child pids)
]

module _ (children : ℕ → Option (List ℕ)) where
  pub add_tree-Descends :
      (fuel pid root : ℕ)
      → is_in pid (add_tree children fuel root) ≡ true
      → Descends children pid root
  unfolding is_in add_tree
  add_tree-Descends zero pid root h = cc
  add_tree-Descends (suc fuel) pid root h = elim (Bool-cases (root == pid)) [
    | inl same ↦
        subst (λ r. Descends children pid r) (sym ((nat_beq_iff root pid).0 same)) (itself pid)
    | inr other ↦ below (children root) refl (ground (arith, h, other)) (add_tree-Descends fuel)
  ]
    where
      below :
          (o : Option (List ℕ))
          → children root ≡ o
          → is_in pid (elim o as (λ _. List ℕ) [
            | none ↦ []
            | some pids ↦ add_all (add_tree children fuel) pids
          ])
            ≡ true
          → ((p r : ℕ) → is_in p (add_tree children fuel r) ≡ true → Descends children p r)
          → Descends children pid root
      below none q k ih = cc
      below (some pids) q k ih =
          let (child, listed, found) = is_in-add_all (add_tree children fuel) pid pids k in
          through pid child root pids q listed (ih pid child found)

  -- A number that falls from a process to its children, as their age does.
  module _ (rank : ℕ → ℕ)
      (falls : (root child : ℕ) (pids : List ℕ)
        → children root ≡ some pids
        → is_in child pids ≡ true
        → rank child < rank root) where
    Descends-add_tree :
        (fuel pid root : ℕ)
        → rank root < fuel
        → Descends children pid root
        → is_in pid (add_tree children fuel root) ≡ true
    unfolding is_in add_tree
    Descends-add_tree zero pid root h d = absurd (omega arith)
    Descends-add_tree (suc fuel) pid root h (itself _) =
        ground (arith, (nat_beq_iff pid pid).1 refl)
    Descends-add_tree (suc fuel) pid root h (through _ child _ pids q listed d) = ground (
      arith,
      q,
      add_all-is_in (add_tree children fuel) pid child pids listed
          (Descends-add_tree fuel pid child (omega (arith, falls root child pids q listed)) d),
    )

    -- The walk through the tree of processes finds the launched process and all its descendants, and
    -- nothing else, given that no process descends from itself: some number falls from each process to
    -- its children, and the fuel is larger than that of the launched process.
    pub add_tree-is_in :
        (fuel pid root : ℕ)
        → rank root < fuel
        → (is_in pid (add_tree children fuel root) ≡ true) ↔ Descends children pid root
    add_tree-is_in fuel pid root h =
        (add_tree-Descends fuel pid root, Descends-add_tree fuel pid root h)
