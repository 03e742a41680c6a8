-- ===== src/Base/Results.antt =====
-- Errors as values. A constructor of `Error` stands for one `fmt.Errorf` of the source, with the
-- values that it formats; `system` is an error of the operating system or of a library.
use Prim.Native.Nat.{ℕ}
use mathlib.Core.Path.{◌≡◌, refl}
use mathlib.Core.Bool.{Bool, true, false}
use nomad_driver_steamcmd.Base.Bytes.{Text}

pub data Error : Type 0 where
  system : Text → Error
  invalid_platform : Text → Error
  no_login : Error
  no_password : Error
  reading_password_file : Text → Error → Error
  start_failed : Error → Error
  auth_failed : Text → Error
  incomplete : Text → Error
  retried : Error → Text → Error
  unsupported_signal : Text → Error
  mount_outside : Text → Error
  mounting : Text → Error → Error
  not_empty : Text → Error
  not_a_directory : Text → Error
  stage_absolute : Text → Error
  stage_escapes : Text → Error
  staging : Text → Text → Error → Error
  proton_path_missing : Error
  proton_path_relative : Text → Error
  proton_script_missing : Text → Error
  creating_compat_dir : Text → Error → Error
  task_not_found : Error
  still_running : Text → Error
  no_process : Text → Error
  invalid_timeout : Text → Error
  bad_timeout : Text → Error → Error
  already_started : Text → Error
  decoding : Error → Error
  creating_install_dir : Text → Error → Error
  no_space : Text → ℕ → Error
  opening_logs : Error → Error
  helpers_remain : Error
  setting_state : Error → Error
  launching : Text → Error → Error
  no_handle : Error
  decoding_state : Error → Error
  no_pid : Text → Error
  process_not_found : Error
  no_exec : Error
  process_done : Error

pub data Result {ℓ} (A : Type ℓ) : Type ℓ where
  ok : A → Result A
  err : Error → Result A

infixl 5 ◌>>=◌
abbrev pub ◌>>=◌ {ℓ κ} : {A : Type ℓ} {B : Type κ} → Result A → (A → Result B) → Result B
ok a >>= f = f a
err e >>= f = err e

-- A chain that succeeds has a first call that succeeds, and goes on with what that returns.
pub >>=-eq-ok {ℓ κ} :
    {A : Type ℓ} {B : Type κ} {y : B} (r : Result A) (next : A → Result B)
    → (r >>= next) ≡ ok y
    → (x : A) × (r ≡ ok x) × (next x ≡ ok y)
>>=-eq-ok (ok x) next succeeds = (x, refl, succeeds)
>>=-eq-ok (err failure) next succeeds = cc

pub ok-injective {ℓ} : {A : Type ℓ} {a b : A} → Result.ok a ≡ Result.ok b → a ≡ b
ok-injective h = cc

abbrev pub is_ok {ℓ} : {A : Type ℓ} → Result A → Bool
is_ok (ok a) = true
is_ok (err e) = false

abbrev pub IsOk {ℓ} : {A : Type ℓ} → Result A → Type 0
IsOk r = is_ok r ≡ true
