-- ===== src/Lifecycle/Store.antt =====
-- Effects on the machine and on `d.tasks`.
use nomad_driver_steamcmd.Base.{Text, text_eq, ok, err}
use nomad_driver_steamcmd.Base.Effects.{Effect}
use nomad_driver_steamcmd.Task.{TaskHandle, Tasks, delete, put}

-- A state of the machine and the tasks.
abbrev pub World : Type 0 → Type 0
World S = S × Tasks

module _ {S : Type 0} where
  -- What leaves the tasks alone.
  unfoldable pub on_host : {A : Type 0} → Effect S A → Effect (World S) A
  on_host m (s, tasks) = let (t, r) = m s in ((t, tasks), r)

  unfoldable pub act : (S → S) → Effect (World S) (Unit {0})
  act f (s, tasks) = ((f s, tasks), ok tt)

  -- The handle is a shared object: what changes it changes what the store has.
  unfoldable pub keep_handle : Text → TaskHandle → Effect (World S) (Unit {0})
  unfolding put
  keep_handle id h (s, tasks) = ((s, put id h tasks), ok tt)

  -- On an error the task is no longer tracked.
  unfoldable pub or_delete : {A : Type 0} → Text → Effect (World S) A → Effect (World S) A
  unfolding delete
  or_delete id m w =
      let (v, r) = m w in elim r [ ok a ↦ (v, ok a) | err e ↦ ((v.0, delete id v.1), err e) ]
