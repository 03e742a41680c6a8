-- ===== src/Steamcmd/Args/Commands.antt =====
-- What steamcmd reads off the command line: commands start at a "+", values follow them.
use mathlib.Core.List.{append-nil}
use nomad_driver_steamcmd.Base.{
  Text, bytes, nat_eq, text_eq, ◌==◌, has_prefix, Bool-cases, true, false, List, [], ◌∷◌, ◌++◌, All,
  ◌⊎◌, ◌≡◌, refl, sym, inl, inr, arith, if◌then◌else◌, Result, ok, >>=-eq-ok, ok-injective, ap, ◌∙◌,
}
use nomad_driver_steamcmd.Config.{LoginConfig, TaskConfig}
use nomad_driver_steamcmd.Steamcmd.Args.{
  platform_args, update_args, login_args, resolve_password, build_args,
}

abbrev pub Commands : Type 0
Commands = List Text × List (List Text)

-- The values before the first command, and the commands, each with its values.
unfoldable pub commands : List Text → Commands
commands [] = ([], [])
commands (a ∷ args) =
    let (values, rest) = commands args in
    if has_prefix a (bytes "+") then ([], (a ∷ values) ∷ rest) else (a ∷ values, rest)

abbrev pub IsValue : Text → Type 0
IsValue a = has_prefix a (bytes "+") ≡ false

commands-values :
    (values args : List Text)
    → All IsValue values
    → commands (values ++ args) ≡ (values ++ (commands args).0, (commands args).1)
unfolding commands
commands-values [] args h = refl
commands-values (a ∷ values) args h = rw (h.0, commands-values values args h.1)

-- A command with its values, in front of arguments that begin with a command.
commands-command :
    (name : Text) (values args : List Text)
    → has_prefix name (bytes "+") ≡ true
    → All IsValue values
    → (commands args).0 ≡ []
    → commands (name ∷ (values ++ args)) ≡ ([], (name ∷ values) ∷ (commands args).1)
unfolding commands
commands-command name values args n h e = rw (n, commands-values values args h, e) (rw append-nil)

-- The values that the configuration puts on the command line are not read as commands.
pub record PlainValues (cfg : TaskConfig) (login : LoginConfig) (install_dir : Text) : Type 0 where
  pub plain_platform : IsValue cfg.platform
  pub plain_dir : IsValue install_dir
  pub plain_username : IsValue login.username
  pub plain_app_id : IsValue cfg.app_id
  pub plain_beta : IsValue cfg.beta
  pub plain_beta_password : IsValue cfg.beta_password

-- The command that selects a platform, where one is configured.
abbrev pub platform_command : Text → List (List Text)
platform_command platform =
    if platform == [] then [] else (bytes "+@sSteamCmdForcePlatformType" ∷ platform ∷ []) ∷ []

-- The values of the update command.
abbrev update_values : TaskConfig → List Text
update_values cfg =
    cfg.app_id
    ∷ ((if cfg.beta == []
          then []
          else (bytes "-beta" ∷ cfg.beta ∷ [])
            ++ (if cfg.beta_password == []
                then []
                else bytes "-betapassword" ∷ cfg.beta_password ∷ []))
        ++ (if cfg.validate then bytes "validate" ∷ [] else []))

platform_args-cases :
    (platform : Text) {args : List Text}
    → platform_args platform ≡ ok args
    → (((platform == []) ≡ true) × (args ≡ []))
      ⊎ (((platform == []) ≡ false) × (args ≡ bytes "+@sSteamCmdForcePlatformType" ∷ platform ∷ []))
unfolding platform_args
platform_args-cases platform h = ground arith

-- Who logs in: nobody by name, or a user with a password that was found.
login_args-cases :
    (read_file : Text → Result Text) (login : LoginConfig) {who : List Text}
    → login_args read_file login ≡ ok who
    → (who ≡ bytes "+login" ∷ bytes "anonymous" ∷ [])
      ⊎ ((pw : Text) × (resolve_password read_file login ≡ ok pw)
          × (who ≡ bytes "+login" ∷ login.username ∷ pw ∷ []))
unfolding login_args
login_args-cases read_file login h = ground arith

module _ {cfg : TaskConfig} {login : LoginConfig} {install_dir : Text}
    (plain : PlainValues cfg login install_dir) where
  update_values-plain : All IsValue (update_values cfg)
  unfolding has_prefix
  update_values-plain = elim (Bool-cases (cfg.beta == [])) [
    | inl released ↦ rw released (plain.plain_app_id, validate-plain)
    | inr beta ↦ rw beta (elim (Bool-cases (cfg.beta_password == [])) [
      | inl open_beta ↦
          rw open_beta (plain.plain_app_id, (refl, (plain.plain_beta, validate-plain)))
      | inr locked ↦ rw locked (
        plain.plain_app_id,
        (refl, (plain.plain_beta, (refl, (plain.plain_beta_password, validate-plain)))),
      )
    ])
  ]
    where
      validate-plain : All IsValue (if cfg.validate then bytes "validate" ∷ [] else [])
      validate-plain = elim (Bool-cases cfg.validate) [
        | inl on ↦ rw on (refl, tt)
        | inr off ↦ rw off tt
      ]

  update-quit :
      commands (update_args cfg ++ (bytes "+quit" ∷ []))
      ≡ ([], update_args cfg ∷ (bytes "+quit" ∷ []) ∷ [])
  unfolding update_args commands has_prefix
  update-quit =
      commands-command (bytes "+app_update") (update_values cfg) (bytes "+quit" ∷ []) refl
        update_values-plain refl

  login_args-command :
      (read_file : Text → Result Text)
      → ((pw : Text) → resolve_password read_file login ≡ ok pw → IsValue pw)
      → {who : List Text} → login_args read_file login ≡ ok who
      → (values : List Text) × (who ≡ bytes "+login" ∷ values) × All IsValue values
  unfolding login_args has_prefix
  login_args-command read_file secret h = elim (login_args-cases read_file login h) [
    | inl e ↦ (bytes "anonymous" ∷ [], e, (refl, tt))
    | inr (pw, found, e) ↦
        (login.username ∷ pw ∷ [], e, (plain.plain_username, (secret pw found, tt)))
  ]

  platform_args-command :
      {args : List Text} (rest : List Text)
      → platform_args cfg.platform ≡ ok args
      → (commands rest).0 ≡ []
      → commands (args ++ rest) ≡ ([], platform_command cfg.platform ++ (commands rest).1)
  unfolding platform_args commands has_prefix
  platform_args-command rest h e = elim (platform_args-cases cfg.platform h) [
    | inl (none_set, args) ↦ rw (args, none_set) (rw (← e))
    | inr (set, args) ↦
        rw (args, set)
          (commands-command (bytes "+@sSteamCmdForcePlatformType") (cfg.platform ∷ []) rest refl
            (plain.plain_platform, tt) e)
  ]

  after-login :
      (values : List Text)
      → All IsValue values
      → commands ((bytes "+login" ∷ values) ++ (update_args cfg ++ (bytes "+quit" ∷ [])))
        ≡ ([], (bytes "+login" ∷ values) ∷ update_args cfg ∷ (bytes "+quit" ∷ []) ∷ [])
  unfolding has_prefix
  after-login values h =
      commands-command (bytes "+login") values _ refl h (ap (λ c. c.0) update-quit)
      ∙ ap (λ (c : Commands). ([], (bytes "+login" ∷ values) ∷ c.1)) update-quit

  after-dir :
      (values : List Text)
      → All IsValue values
      → let rest = (bytes "+login" ∷ values) ++ (update_args cfg ++ (bytes "+quit" ∷ [])) in
        commands (bytes "+force_install_dir" ∷ install_dir ∷ rest) ≡ (
          [],
          (bytes "+force_install_dir" ∷ install_dir ∷ [])
              ∷ (bytes "+login" ∷ values)
              ∷ update_args cfg
              ∷ (bytes "+quit" ∷ [])
              ∷ [],
        )
  unfolding has_prefix
  after-dir values h =
      commands-command (bytes "+force_install_dir") (install_dir ∷ []) _ refl (plain.plain_dir, tt)
        (ap (λ c. c.0) (after-login values h))
      ∙ ap (λ (c : Commands). ([], (bytes "+force_install_dir" ∷ install_dir ∷ []) ∷ c.1))
          (after-login values h)

  -- steamcmd reads, off an accepted command line: the platform to force, if one is configured; the
  -- directory; the login; the update; and quit. It does so if no configured value begins with "+".
  pub build_args-commands :
      (read_file : Text → Result Text)
      → ((pw : Text) → resolve_password read_file login ≡ ok pw → IsValue pw)
      → {args : List Text} → build_args read_file cfg login install_dir ≡ ok args
      → (who : List Text) × (login_args read_file login ≡ ok who)
        × (commands args ≡ (
          [],
          platform_command cfg.platform
              ++ ((bytes "+force_install_dir" ∷ install_dir ∷ [])
                  ∷ who
                  ∷ update_args cfg
                  ∷ (bytes "+quit" ∷ [])
                  ∷ []),
        ))
  unfolding build_args
  build_args-commands read_file secret {args} h =
      let (platform, p, h') = >>=-eq-ok (platform_args cfg.platform) _ h in
      let (who, w, h'') = >>=-eq-ok (login_args read_file login) _ h' in
      let (values, e, v) = login_args-command read_file secret w in
      let tail = after-dir values v in
      (
        who,
        w,
        ap commands (sym (ok-injective h''))
            ∙ rw e (
                platform_args-command _ p (ap (λ c. c.0) tail)
                ∙ ap (λ (c : Commands). ([], platform_command cfg.platform ++ c.1)) tail),
      )
