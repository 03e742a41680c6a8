-- ===== src/Lifecycle/Triple.antt =====
-- What holds of `d.tasks` when an effect has succeeded.
use nomad_driver_steamcmd.Base.{
  Text, text_eq, text_beq_iff, some, Result, ok, err, ◌≡◌, refl, ◌∙◌, subst,
}
use nomad_driver_steamcmd.Base.Effects.{Effect, pure, ◌>>=◌}
use nomad_driver_steamcmd.Task.{TaskHandle, Tasks, load, delete}
use nomad_driver_steamcmd.Lifecycle.Store.{World, on_host, act, keep_handle, or_delete}
use nomad_driver_steamcmd.Lifecycle.Restores.{load-put}

module _ (S : Type 0) where
  -- If `before` holds and the effect succeeds, then `after` holds of what it returns.
  unfoldable pub Triple :
      {A : Type 0} → (Tasks → Type 0) → Effect (World S) A → (A → Tasks → Type 0) → Type 0
  Triple before m after = (w : World S) → before w.1 → (a : _) → (m w).1 ≡ ok a → after a (m w).0.1

  abbrev settled :
      {A B : Type 0} → (A → Effect (World S) B) → World S → Result A → World S × Result B
  settled f v (ok a) = f a v
  settled f v (err e) = (v, err e)

  pub bind-Triple :
      {A B : Type 0} (before : Tasks → Type 0) (between : A → Tasks → Type 0)
      (after : B → Tasks → Type 0) (m : Effect (World S) A) (f : A → Effect (World S) B)
      → Triple before m between
      → ((a : A) → Triple (between a) (f a) after)
      → Triple before (m >>= f) after
  unfolding Triple
  bind-Triple before between after m f first next w h b = go (m w).1 refl
    where
      go :
          (r : Result _)
          → (m w).1 ≡ r
          → (settled f (m w).0 r).1 ≡ ok b
          → after b (settled f (m w).0 r).0.1
      go (ok a) q e = next a (m w).0 (first w h a q) b e
      go (err x) q e = cc

  pub pure-Triple :
      {A : Type 0} (before : Tasks → Type 0) (after : A → Tasks → Type 0) (a : A)
      → ((tasks : Tasks) → before tasks → after a tasks)
      → Triple before (pure a) after
  unfolding Triple
  pure-Triple before after a follows w h b e = subst (λ x. after x w.1) (cc) (follows w.1 h)

  -- Nothing is claimed.
  pub any-Triple :
      {A : Type 0} (before : Tasks → Type 0) (m : Effect (World S) A)
      → Triple before m (λ _ _. Unit)
  unfolding Triple
  any-Triple before m w h a e = tt

  pub act-Triple : (P : Tasks → Type 0) (f : S → S) → Triple P (act f) (λ _. P)
  unfolding Triple act
  act-Triple P f w h a e = h

  -- What the machine returns may be known to have a property.
  pub read-Triple :
      {A : Type 0} (P : Tasks → Type 0) (Q : A → Type 0) (f : S → A)
      → ((s : S) → Q (f s))
      → Triple P (on_host (λ s. (s, ok (f s)))) (λ a tasks. P tasks × Q a)
  unfolding Triple on_host
  read-Triple P Q f known w h a e = (h, subst Q (cc) (known w.0))

  pub on_host-Triple :
      {A : Type 0} (P : Tasks → Type 0) (m : Effect S A) → Triple P (on_host m) (λ _. P)
  unfolding Triple on_host
  on_host-Triple P m w h a e = h

  pub keep_handle-Triple :
      (P : Type 0) (id : Text) (h : TaskHandle)
      → Triple (λ _. P) (keep_handle id h) (λ _ tasks. P × (load id tasks ≡ some h))
  unfolding Triple keep_handle
  keep_handle-Triple P id h w p a e =
      (p, load-put id id h w.1 ∙ rw ((text_beq_iff id id).1 refl) refl)

  pub store-Triple :
      (P : Type 0) (id : Text) (h : TaskHandle) → Triple (λ _. P) (keep_handle id h) (λ _ _. P)
  unfolding Triple keep_handle
  store-Triple P id h w p a e = p

  abbrev undone : {A : Type 0} → Text → World S → Result A → World S × Result A
  undone id v (ok a) = (v, ok a)
  undone id v (err e) = ((v.0, delete id v.1), err e)

  pub or_delete-Triple :
      {A : Type 0} (before : Tasks → Type 0) (after : A → Tasks → Type 0) (id : Text)
      (m : Effect (World S) A)
      → Triple before m after
      → Triple before (or_delete id m) after
  unfolding Triple or_delete
  or_delete-Triple before after id m kept w h b = go (m w).1 refl
    where
      go :
          (r : Result _)
          → (m w).1 ≡ r
          → (undone id (m w).0 r).1 ≡ ok b
          → after b (undone id (m w).0 r).0.1
      go (ok a) q e = kept w h b (q ∙ e)
      go (err x) q e = cc

  pub call-Triple :
      {A : Type 0} (P : Tasks → Type 0) (id : Text) (m : Effect S A)
      → Triple P (or_delete id (on_host m)) (λ _. P)
  call-Triple P id m = or_delete-Triple P (λ _. P) id (on_host m) (on_host-Triple P m)
