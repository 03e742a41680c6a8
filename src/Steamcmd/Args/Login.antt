-- ===== src/Steamcmd/Args/Login.antt =====
-- When a login gives arguments, and what the update command says.
use nomad_driver_steamcmd.Base.{
  Text, bytes, nat_eq, text_eq, text_beq, text_beq_iff, ◌==◌, Bool, true, false, Option, none, some,
  List, [], ◌∷◌, ◌⊎◌, ◌≡◌, ◌≢◌, ◌↔◌, arith, if◌then◌else◌, Result, IsOk,
}
use nomad_driver_steamcmd.Config.{LoginConfig, TaskConfig}
use nomad_driver_steamcmd.Steamcmd.Args.{
  platform_args, update_args, login_args, resolve_password, build_args,
}

module _ (read_file : Text → Result Text) where
  -- A login that steamcmd can be given: anonymous, or a user with a password that is configured or
  -- that can be read from its file.
  abbrev pub CanLogIn : LoginConfig → Type 0
  CanLogIn login =
      (login.anonymous ≡ true)
      ⊎ ((login.username ≢ [])
          × ((login.password ≢ [])
              ⊎ ((login.password_file ≢ []) × IsOk (read_file login.password_file))))

  resolve_password-IsOk :
      (login : LoginConfig)
      → IsOk (resolve_password read_file login) ↔ (
          (login.password ≢ [])
          ⊎ ((login.password_file ≢ []) × IsOk (read_file login.password_file)))
  unfolding resolve_password
  resolve_password-IsOk login = (
    λ h. ground (arith, text_beq_iff login.password [], text_beq_iff login.password_file []),
    λ h. ground (arith, text_beq_iff login.password [], text_beq_iff login.password_file []),
  )

  pub login_args-IsOk : (login : LoginConfig) → IsOk (login_args read_file login) ↔ CanLogIn login
  unfolding login_args
  login_args-IsOk login = (
    λ h. ground (arith, text_beq_iff login.username [], (resolve_password-IsOk login).0),
    λ h. ground (arith, text_beq_iff login.username [], (resolve_password-IsOk login).1),
  )

abbrev pub IsKnownPlatform : Text → Type 0
IsKnownPlatform p = (p ≡ []) ⊎ (p ≡ bytes "windows") ⊎ (p ≡ bytes "macos") ⊎ (p ≡ bytes "linux")

platform_args-IsOk : (p : Text) → IsOk (platform_args p) ↔ IsKnownPlatform p
unfolding platform_args
platform_args-IsOk p = (
  λ h. ground (
    arith,
    text_beq_iff p [],
    text_beq_iff p (bytes "windows"),
    text_beq_iff p (bytes "macos"),
    text_beq_iff p (bytes "linux"),
  ),
  λ h. ground (
    arith,
    text_beq_iff p [],
    text_beq_iff p (bytes "windows"),
    text_beq_iff p (bytes "macos"),
    text_beq_iff p (bytes "linux"),
  ),
)

-- A command line is built exactly if the platform is one that steamcmd knows, or none, and the
-- login can be used.
pub build_args-IsOk :
    (read_file : Text → Result Text) (cfg : TaskConfig) (login : LoginConfig) (install_dir : Text)
    → IsOk (build_args read_file cfg login install_dir)
      ↔ (IsKnownPlatform cfg.platform × CanLogIn read_file login)
unfolding build_args
build_args-IsOk read_file cfg login install_dir = (
  λ h. (
    (platform_args-IsOk cfg.platform).0 (ground arith),
    (login_args-IsOk read_file login).0 (ground arith),
  ),
  λ h.
      ground
        (arith, (platform_args-IsOk cfg.platform).1 h.0, (login_args-IsOk read_file login).1 h.1),
)

pub record UpdateRequest : Type 0 where
  pub app_id : Text
  pub beta : Option Text
  pub beta_password : Option Text
  pub validate : Bool

read_validate : UpdateRequest → List Text → Option UpdateRequest
read_validate r [] = some r
read_validate r (a ∷ []) =
    if a == bytes "validate" then some (record r { validate = true }) else none
read_validate r _ = none

read_beta_password : UpdateRequest → List Text → Option UpdateRequest
unfolding read_validate
read_beta_password r (flag ∷ password ∷ args) =
    if flag == bytes "-betapassword"
    then read_validate (record r { beta_password = some password }) args
    else none
read_beta_password r args = read_validate r args

read_beta : UpdateRequest → List Text → Option UpdateRequest
unfolding read_beta_password
read_beta r (flag ∷ beta ∷ args) =
    if flag == bytes "-beta" then read_beta_password (record r { beta = some beta }) args else none
read_beta r args = read_validate r args

-- How steamcmd reads the arguments of `+app_update`.
unfoldable read_update : List Text → Option UpdateRequest
unfolding read_beta
read_update (name ∷ app_id ∷ args) =
    if name == bytes "+app_update"
    then read_beta (record { app_id = app_id; beta = none; beta_password = none; validate = false })
        args
    else none
read_update _ = none

abbrev given : Text → Option Text
given s = if s == [] then none else some s

-- The update command says what the configuration says: a beta branch if one is set, its password
-- only together with the branch, and validation if it is on.
read_update-update_args :
    (cfg : TaskConfig)
    → read_update (update_args cfg)
      ≡ some (record {
        app_id = cfg.app_id;
        beta = given cfg.beta;
        beta_password = if cfg.beta == [] then none else given cfg.beta_password;
        validate = cfg.validate;
      })
unfolding read_update update_args text_beq
read_update-update_args cfg = ground arith
