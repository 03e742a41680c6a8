-- ===== src/Stage/Copy.antt =====
-- What a failed copy leaves behind.
use nomad_driver_steamcmd.Base.{
  ℕ, Text, bytes, Result, ok, err, Error, ◌≡◌, ◌≢◌, refl, sym, ap, ◌∙◌, arith,
}
use nomad_driver_steamcmd.Base.Effects.{Effect, ◌>>=◌, ◌>>◌}
use nomad_driver_steamcmd.FilePath.{dir}
use nomad_driver_steamcmd.Stage.{StageOs, or_remove, copy_to, copy_opened, copy_file}

-- What the calls do to a file that they do not name.
pub record LeavesOthers {S X : Type 0} (os : StageOs S) (content : Text → S → X) : Type 0 where
  pub open_file : (path src : Text) (s : S) → content path (os.open_file src s).0 ≡ content path s
  pub permissions :
      (path : Text) (file : ℕ) (s : S) → content path (os.permissions file s).0 ≡ content path s
  pub close_file :
      (path : Text) (file : ℕ) (s : S) → content path (os.close_file file s) ≡ content path s
  pub mkdir_all :
      (path folder : Text) (s : S) → content path (os.mkdir_all folder s).0 ≡ content path s
  pub create_temp :
      (path folder pattern : Text) (s : S)
      → (os.create_temp folder pattern s).1 ≢ ok path
      → content path (os.create_temp folder pattern s).0 ≡ content path s
  pub copy :
      (path tmp : Text) (file : ℕ) (s : S)
      → path ≢ tmp
      → content path (os.copy tmp file s).0 ≡ content path s
  pub close_temp : (path tmp : Text) (s : S) → content path (os.close_temp tmp s).0 ≡ content path s
  pub chmod :
      (path tmp : Text) (mode : ℕ) (s : S)
      → path ≢ tmp
      → content path (os.chmod tmp mode s).0 ≡ content path s
  pub remove :
      (path tmp : Text) (s : S) → path ≢ tmp → content path (os.remove tmp s).0 ≡ content path s
  pub rename_fails :
      (path tmp new : Text) (s t : S) (e : Error)
      → os.rename tmp new s ≡ (t, err e)
      → content path t ≡ content path s

module _ {S X : Type 0} (os : StageOs S) (content : Text → S → X) (others : LeavesOthers os content)
    (dst : Text) where
  abbrev Keeps : {A : Type 0} → Effect S A → Type 0
  Keeps m = (s : S) → content dst (m s).0 ≡ content dst s

  abbrev FailKeeps : {A : Type 0} → Effect S A → Type 0
  FailKeeps m = (s t : S) (e : Error) → m s ≡ (t, err e) → content dst t ≡ content dst s

  bind :
      {A B : Type 0} (m : Effect S A) (f : A → Effect S B)
      → Keeps m
      → ((a : A) (s : S) → (m s).1 ≡ ok a → FailKeeps (f a))
      → FailKeeps (m >>= f)
  bind m f keeps fails s t e h = split (m s).1 refl
    where
      split : (r : Result _) → (m s).1 ≡ r → content dst t ≡ content dst s
      split (ok a) q = fails a s q (m s).0 t e (ground arith) ∙ keeps s
      split (err e') q = sym (ap (content dst) (ground arith)) ∙ keeps s

  or_remove-Keeps :
      (tmp : Text) (m : Effect S (Unit {0})) → dst ≢ tmp → Keeps m → Keeps (or_remove os tmp m)
  unfolding or_remove
  or_remove-Keeps tmp m other keeps s = split (m s).1 refl
    where
      split :
          (r : Result (Unit {0}))
          → (m s).1 ≡ r
          → content dst (or_remove os tmp m s).0 ≡ content dst s
      split (ok done) q = rw (q, or_remove) (keeps s)
      split (err e) q = rw (q, or_remove) (others.remove dst tmp (m s).0 other ∙ keeps s)

  copy_to-Keeps : (tmp : Text) (file : ℕ) → dst ≢ tmp → Keeps (copy_to os tmp file)
  unfolding copy_to
  copy_to-Keeps tmp file other s = split (os.copy tmp file s).1 refl
    where
      split :
          (r : Result (Unit {0}))
          → (os.copy tmp file s).1 ≡ r
          → content dst (copy_to os tmp file s).0 ≡ content dst s
      split (ok done) q = rw (q, copy_to) (others.copy dst tmp file s other)
      split (err e) q =
          rw (q, copy_to)
            (others.close_temp dst tmp (os.copy tmp file s).0 ∙ others.copy dst tmp file s other)

  -- The rest of `copy_opened` after each of its calls.
  abbrev permitted : ℕ → Text → Effect S (Unit {0})
  permitted mode tmp = or_remove os tmp (os.chmod tmp mode) >> os.rename tmp dst

  abbrev closed : ℕ → Text → Effect S (Unit {0})
  closed mode tmp = or_remove os tmp (os.close_temp tmp) >> permitted mode tmp

  abbrev written : ℕ → ℕ → Text → Effect S (Unit {0})
  written file mode tmp = or_remove os tmp (copy_to os tmp file) >> closed mode tmp

  abbrev created : ℕ → ℕ → Effect S (Unit {0})
  created file mode = os.create_temp (dir dst) (bytes ".stage-*") >>= written file mode

  written-fails : (file mode : ℕ) (tmp : Text) → dst ≢ tmp → FailKeeps (written file mode tmp)
  written-fails file mode tmp other =
      bind (or_remove os tmp (copy_to os tmp file)) (λ _. closed mode tmp)
        (or_remove-Keeps tmp (copy_to os tmp file) other (copy_to-Keeps tmp file other))
        (λ _ _ _.
          bind (or_remove os tmp (os.close_temp tmp)) (λ _. permitted mode tmp)
            (or_remove-Keeps tmp (os.close_temp tmp) other (others.close_temp dst tmp))
            (λ _ _ _.
              bind (or_remove os tmp (os.chmod tmp mode)) (λ _. os.rename tmp dst)
                (or_remove-Keeps tmp (os.chmod tmp mode) other
                  (λ u. others.chmod dst tmp mode u other))
                (λ _ _ _. others.rename_fails dst tmp dst)))

  copy_opened-fails :
      (file : ℕ)
      → ((s : S) → (os.create_temp (dir dst) (bytes ".stage-*") s).1 ≢ ok dst)
      → FailKeeps (copy_opened os file dst)
  unfolding copy_opened
  copy_opened-fails file fresh =
      bind (os.permissions file) (λ mode. os.mkdir_all (dir dst) >> created file mode)
        (others.permissions dst file)
        (λ mode _ _.
          bind (os.mkdir_all (dir dst)) (λ _. created file mode) (others.mkdir_all dst (dir dst))
            (λ _ _ _.
              bind (os.create_temp (dir dst) (bytes ".stage-*")) (written file mode)
                (λ s. others.create_temp dst (dir dst) (bytes ".stage-*") s (fresh s))
                (λ tmp s made. written-fails file mode tmp (λ e. fresh s (made ∙ ap ok (sym e))))))

  -- A copy that fails leaves the destination as it was: a config file is never half written. The calls
  -- of the operating system are taken to leave alone the files that they do not name, and a new
  -- temporary file not to be the destination.
  pub copy_file-fails :
      (src : Text)
      → ((s : S) → (os.create_temp (dir dst) (bytes ".stage-*") s).1 ≢ ok dst)
      → (s t : S) → (e : Error) → copy_file os src dst s ≡ (t, err e)
      → content dst t ≡ content dst s
  unfolding copy_file
  copy_file-fails src fresh s t e h = split (os.open_file src s).1 refl
    where
      split : (r : Result ℕ) → (os.open_file src s).1 ≡ r → content dst t ≡ content dst s
      split (err e') q = sym (ap (content dst) (ground arith)) ∙ others.open_file dst src s
      split (ok file) q =
          let opened : S = (os.open_file src s).0 in
          let copied : S × Result (Unit {0}) = copy_opened os file dst opened in
          let closed : os.close_file file copied.0 ≡ t = ground arith in
          let failed : copied ≡ (copied.0, err e) = ground arith in
          sym (ap (content dst) closed)
          ∙ others.close_file dst file copied.0
          ∙ copy_opened-fails file fresh opened copied.0 e failed
          ∙ others.open_file dst src s
