-- ===== src/Lifecycle/Restores.antt =====
-- What an effect does to `d.tasks`.
use nomad_driver_steamcmd.Base.{
  Text, text_eq, text_beq_iff, ◌==◌, Bool, Bool-cases, false, none, some, Result, ok, err, is_ok,
  ◌≡◌, refl, ◌∙◌, inl, inr, if◌then◌else◌,
}
use nomad_driver_steamcmd.Base.Effects.{Effect, pure, ◌>>=◌}
use nomad_driver_steamcmd.Task.{TaskHandle, Tasks, load, delete, put}
use nomad_driver_steamcmd.Task.Destroy.{load-delete}
use nomad_driver_steamcmd.Lifecycle.Store.{World, on_host, act, keep_handle, or_delete}

pub load-put :
    (key id : Text) (h : TaskHandle) (tasks : Tasks)
    → load key (put id h tasks) ≡ (if id == key then some h else load key tasks)
unfolding load put
load-put key id h tasks = elim (Bool-cases (id == key)) [
  | inl here ↦ rw here refl
  | inr other ↦ rw other (load-delete key id tasks ∙ rw other refl)
]

module _ {S : Type 0} (id : Text) where
  -- Every other task stays as it is.
  unfoldable pub Spares : {A : Type 0} → Effect (World S) A → Type 0
  Spares m = (key : Text) (w : World S) → (id == key) ≡ false → load key (m w).0.1 ≡ load key w.1

  -- And on an error the task is not tracked.
  pub record Restores {A : Type 0} (m : Effect (World S) A) : Type 0 where
    pub spares : Spares m
    pub fails : (w : World S) → is_ok (m w).1 ≡ false → load id (m w).0.1 ≡ none

  pub on_host-Spares : {A : Type 0} (m : Effect S A) → Spares (on_host m)
  unfolding Spares on_host
  on_host-Spares m key w other = refl

  pub act-Restores : (f : S → S) → Restores (act f)
  unfolding Spares act
  act-Restores f = record { spares = λ key w other. refl; fails = λ w h. cc }

  pub pure-Restores : {A : Type 0} (a : A) → Restores (pure a)
  unfolding Spares
  pure-Restores a = record { spares = λ key w other. refl; fails = λ w h. cc }

  pub keep_handle-Restores : (h : TaskHandle) → Restores (keep_handle id h)
  unfolding Spares keep_handle
  keep_handle-Restores h = record {
    spares = λ key w other. load-put key id h w.1 ∙ rw other refl;
    fails = λ w h. cc;
  }

  -- What the machine is asked, which cannot fail.
  pub read-Restores : {A : Type 0} (f : S → A) → Restores (on_host (λ s. (s, ok (f s))))
  unfolding Spares on_host
  read-Restores f = record { spares = λ key w other. refl; fails = λ w h. cc }

  -- What a chain goes on with.
  abbrev settled :
      {A B : Type 0} → (A → Effect (World S) B) → World S → Result A → World S × Result B
  settled f v (ok a) = f a v
  settled f v (err e) = (v, err e)

  abbrev undone : {A : Type 0} → World S → Result A → World S × Result A
  undone v (ok a) = (v, ok a)
  undone v (err e) = ((v.0, delete id v.1), err e)

  pub bind-Spares :
      {A B : Type 0} (m : Effect (World S) A) (f : A → Effect (World S) B)
      → Spares m
      → ((a : A) → Spares (f a))
      → Spares (m >>= f)
  unfolding Spares
  bind-Spares m f first next key w other = go (m w).1
    where
      go : (r : Result _) → load key (settled f (m w).0 r).0.1 ≡ load key w.1
      go (ok a) = next a key (m w).0 other ∙ first key w other
      go (err e) = first key w other

  pub bind-Restores :
      {A B : Type 0} (m : Effect (World S) A) (f : A → Effect (World S) B)
      → Restores m
      → ((a : A) → Restores (f a))
      → Restores (m >>= f)
  unfolding Spares
  bind-Restores m f first next = record {
    spares = bind-Spares m f first.spares (λ a. (next a).spares);
    fails = λ w. go w (m w).1 refl;
  }
    where
      go :
          (w : World S) (r : Result _)
          → (m w).1 ≡ r
          → is_ok (settled f (m w).0 r).1 ≡ false
          → load id (settled f (m w).0 r).0.1 ≡ none
      go w (ok a) q h = (next a).fails (m w).0 h
      go w (err e) q h = first.fails w (rw q refl)

  undone-spares :
      {A : Type 0} (key : Text) (v : World S) (r : Result A)
      → (id == key) ≡ false
      → load key (undone v r).0.1 ≡ load key v.1
  undone-spares key v (ok a) other = refl
  undone-spares key v (err e) other = load-delete key id v.1 ∙ rw other refl

  undone-fails :
      {A : Type 0} (v : World S) (r : Result A)
      → is_ok (undone v r).1 ≡ false
      → load id (undone v r).0.1 ≡ none
  undone-fails v (ok a) h = cc
  undone-fails v (err e) h = load-delete id id v.1 ∙ rw ((text_beq_iff id id).1 refl) refl

  pub or_delete-Restores :
      {A : Type 0} (m : Effect (World S) A) → Spares m → Restores (or_delete id m)
  unfolding Spares or_delete
  or_delete-Restores m kept = record {
    spares = λ key w other. undone-spares key (m w).0 (m w).1 other ∙ kept key w other;
    fails = λ w. undone-fails (m w).0 (m w).1;
  }

  -- A call to the machine on whose error the task is deleted.
  pub call-Restores : {A : Type 0} (m : Effect S A) → Restores (or_delete id (on_host m))
  call-Restores m = or_delete-Restores (on_host m) (on_host-Spares m)

  pub choose-Restores :
      {A : Type 0} (test : World S → Bool) (m n : Effect (World S) A)
      → Restores m
      → Restores n
      → Restores (λ w. if test w then m w else n w)
  unfolding Spares
  choose-Restores test m n first second = record {
    spares = λ key w other. elim (Bool-cases (test w)) [
      | inl holds ↦ rw holds (first.spares key w other)
      | inr not_ ↦ rw not_ (second.spares key w other)
    ];
    fails = λ w. elim (Bool-cases (test w)) [
      | inl holds ↦ rw holds (first.fails w)
      | inr not_ ↦ rw not_ (second.fails w)
    ];
  }
