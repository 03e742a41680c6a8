-- ===== src/Task/Destroy.antt =====
-- What destroying a task does to the store.
use mathlib.Core.Bool.{false≢true}
use nomad_driver_steamcmd.Base.{
  Text, text_eq, text_beq_iff, ◌==◌, Bool, Bool-cases, true, false, not, ◌&&◌, Option, none, some,
  [], ◌∷◌, if◌then◌else◌, Result, ok, err, is_ok, IsOk, some-eq, subst, task_not_found,
  still_running, ◌≡◌, ◌↔◌, refl, sym, ap, ◌∙◌, arith, inl, inr,
}
use nomad_driver_steamcmd.Task.{
  TaskHandle, Tasks, load, delete, is_running, Machine, kill_task, destroy_task,
}

pub load-delete :
    (key id : Text) (tasks : Tasks)
    → load key (delete id tasks) ≡ (if id == key then none else load key tasks)
unfolding load delete
load-delete key id [] = elim (Bool-cases (id == key)) [
  | inl here ↦ rw here refl
  | inr other ↦ rw other refl
]
load-delete key id ((k, h) ∷ tasks) = elim (Bool-cases (k == id)) [
  | inl same ↦
      ground (arith, load-delete key id tasks, ap (λ x. x == key) ((text_beq_iff k id).0 same))
  | inr differ ↦ elim (Bool-cases (k == key)) [
    | inl here ↦ ground (arith, differs-key differ here, load-delete key id tasks)
    | inr other ↦ ground (arith, load-delete key id tasks)
  ]
]
  where
    differs-key : (k == id) ≡ false → (k == key) ≡ true → (id == key) ≡ false
    differs-key differ here = elim (Bool-cases (id == key)) [
      | inr other ↦ other
      | inl too ↦ absurd (
          false≢true (
            sym differ
            ∙ (text_beq_iff k id).1
                ((text_beq_iff k key).0 here ∙ sym ((text_beq_iff id key).0 too))))
    ]

module _ {S : Type 0} (machine : Machine S) (id : Text) (force : Bool) (tasks : Tasks) (s : S) where
  -- What is claimed of an outcome for a key.
  abbrev pub Destroyed : Text → (S × Tasks) × Result (Unit {0}) → Type 0
  Destroyed key out =
      (IsOk out.1
        ↔ ((h : TaskHandle) × (load id tasks ≡ some h) × ((is_running h && not force) ≡ false)))
      × (load key out.0.1 ≡ (if is_ok out.1 && id == key then none else load key tasks))

  missing-Destroyed :
      (key : Text) → load id tasks ≡ none → Destroyed key ((s, tasks), err task_not_found)
  missing-Destroyed key q = ((λ h. cc, λ (h, found, ends). cc), refl)

  refused-Destroyed :
      (key : Text) (h : TaskHandle)
      → load id tasks ≡ some h
      → (is_running h && not force) ≡ true
      → Destroyed key ((s, tasks), err (still_running id))
  refused-Destroyed key h q runs = (
    (
      λ k. cc,
      λ (h', found, ends). absurd (
          false≢true
            (sym ends ∙ ap (λ x. is_running x && not force) (some-eq (sym found ∙ q)) ∙ runs)),
    ),
    refl,
  )

  deleted-Destroyed :
      (key : Text) (h : TaskHandle) (t : S)
      → load id tasks ≡ some h
      → (is_running h && not force) ≡ false
      → Destroyed key ((t, delete id tasks), ok tt)
  deleted-Destroyed key h t q ends = ((λ k. (h, q, ends), λ k. refl), load-delete key id tasks)

  -- Destroying a task succeeds exactly if there is such a task, and it is not running or is forced to
  -- end. The task is then gone; every other one, and on a failure every one, is as it was.
  pub destroy_task-Destroyed : (key : Text) → Destroyed key (destroy_task machine id force tasks s)
  unfolding destroy_task
  destroy_task-Destroyed key = go (load id tasks) refl
    where
      go :
          (o : Option TaskHandle)
          → load id tasks ≡ o
          → Destroyed key (destroy_task machine id force tasks s)
      go none q =
          let e : destroy_task machine id force tasks s ≡ ((s, tasks), err task_not_found) =
            ground arith in
          subst (Destroyed key) (sym e) (missing-Destroyed key q)
      go (some h) q = elim (Bool-cases (is_running h && not force)) [
        | inl runs ↦
            let e : destroy_task machine id force tasks s ≡ ((s, tasks), err (still_running id)) =
              ground arith in
            subst (Destroyed key) (sym e) (refused-Destroyed key h q runs)
        | inr ends ↦
            let t : S = machine.cancel id (if is_running h then kill_task machine h s else s) in
            let e : destroy_task machine id force tasks s ≡ ((t, delete id tasks), ok tt) =
              ground arith in
            subst (Destroyed key) (sym e) (deleted-Destroyed key h t q ends)
      ]
