-- ===== src/Base/Effects.antt =====
-- Calls that change a state and may fail; the state is kept when they fail.
use nomad_driver_steamcmd.Base.Results.{Result, ok, err, Error}

abbrev pub Effect : Type 0 → Type 0 → Type 0
Effect S A = S → S × Result A

module _ {S : Type 0} where
  abbrev pub pure : {A : Type 0} → A → Effect S A
  pure a s = (s, ok a)

  abbrev pub fail : {A : Type 0} → Error → Effect S A
  fail e s = (s, err e)

  -- A result that was computed without an effect.
  abbrev pub lift : {A : Type 0} → Result A → Effect S A
  lift r s = (s, r)

  infixl 5 ◌>>=◌ ◌>>◌
  abbrev pub ◌>>=◌ : {A B : Type 0} → Effect S A → (A → Effect S B) → Effect S B
  ◌>>=◌ m f s = let (s', r) = m s in elim r [ ok a ↦ f a s' | err e ↦ (s', err e) ]

  abbrev pub ◌>>◌ : {B : Type 0} → Effect S (Unit {0}) → Effect S B → Effect S B
  m >> k = m >>= λ _. k

  -- An error is replaced by one that says more.
  abbrev pub wrap : {A : Type 0} → (Error → Error) → Effect S A → Effect S A
  wrap f m s = let (s', r) = m s in elim r [ ok a ↦ (s', ok a) | err e ↦ (s', err (f e)) ]
