-- ===== src/Lifecycle/Never.antt =====
-- Effects that never succeed.
use nomad_driver_steamcmd.Base.{ok, ◌≢◌}
use nomad_driver_steamcmd.Base.Effects.{Effect, ◌>>=◌}
use nomad_driver_steamcmd.Task.{Tasks}
use nomad_driver_steamcmd.Lifecycle.Store.{World, on_host}
use nomad_driver_steamcmd.Lifecycle.Triple.{Triple, bind-Triple}

module _ {S : Type 0} where
  -- An effect that never succeeds.
  abbrev pub Never : {A : Type 0} → Effect (World S) A → Type 0
  Never m = Triple S (λ _. Unit) m (λ _ _. ⊥)

  pub bind-Never :
      {A B : Type 0} (m : Effect (World S) A) (f : A → Effect (World S) B)
      → Never m
      → Never (m >>= f)
  unfolding Triple
  bind-Never m f never =
      bind-Triple S (λ _. Unit) (λ _ _. ⊥) (λ _ _. ⊥) m f never (λ a w h. absurd h)

  pub absurd_Triple :
      {A : Type 0} {before : Tasks → Type 0} (m : Effect (World S) A) (after : A → Tasks → Type 0)
      → ((tasks : Tasks) → before tasks → ⊥)
      → Triple S before m after
  unfolding Triple
  absurd_Triple m after impossible w h a e = absurd (impossible w.1 h)

  pub any-Never :
      {A : Type 0} (before : Tasks → Type 0) (m : Effect (World S) A)
      → Never m
      → Triple S before m (λ _ _. ⊥)
  unfolding Triple
  any-Never before m never w h a e = never w tt a e

  pub on_host-Never :
      {A : Type 0} (m : Effect S A) → ((s : S) (a : A) → (m s).1 ≢ ok a) → Never (on_host m)
  unfolding Triple on_host
  on_host-Never m fails w h a e = fails w.0 a e
