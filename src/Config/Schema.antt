-- ===== src/Config/Schema.antt =====
-- driver/config.go: the schemas by which Nomad decodes the configurations, in the order of the source.
use nomad_driver_steamcmd.Base.{Text, bytes, Bool, true, false}

-- What the source builds with package hclspec.
mutual
  pub data Spec : Type 0 where
    attr : Text → Text → Bool → Spec
    with_default : Spec → Text → Spec
    block : Text → Bool → Fields → Spec

  pub data Fields : Type 0 where
    no_fields : Fields
    field : Text → Spec → Fields → Fields

abbrev pub config_spec : Fields
config_spec =
    field (bytes "steamcmd_path")
      (with_default (attr (bytes "steamcmd_path") (bytes "string") false) (bytes "\"steamcmd\""))
      (field (bytes "install_root")
        (with_default (attr (bytes "install_root") (bytes "string") false) (bytes "\"\""))
        (field (bytes "max_concurrent_installs")
          (with_default (attr (bytes "max_concurrent_installs") (bytes "number") false) (bytes "0"))
          (field (bytes "default_login_anonymous")
            (with_default (attr (bytes "default_login_anonymous") (bytes "bool") false)
              (bytes "true"))
            (field (bytes "default_login_username")
              (with_default (attr (bytes "default_login_username") (bytes "string") false)
                (bytes "\"\""))
              (field (bytes "default_login_password")
                (with_default (attr (bytes "default_login_password") (bytes "string") false)
                  (bytes "\"\""))
                (field (bytes "default_login_password_file")
                  (with_default (attr (bytes "default_login_password_file") (bytes "string") false)
                    (bytes "\"\""))
                  (field (bytes "default_proton_path")
                    (with_default (attr (bytes "default_proton_path") (bytes "string") false)
                      (bytes "\"\""))
                    (no_fields))))))))

abbrev pub launch_spec : Fields
launch_spec = field (bytes "command") (attr (bytes "command") (bytes "string") true) (
    field (bytes "args")
      (with_default (attr (bytes "args") (bytes "list(string)") false) (bytes "[]"))
      (field (bytes "env")
        (with_default (attr (bytes "env") (bytes "map(string)") false) (bytes "{}")) (no_fields)))

abbrev pub task_config_spec : Fields
task_config_spec = field (bytes "app_id") (attr (bytes "app_id") (bytes "string") true) (
    field (bytes "install_dir")
      (with_default (attr (bytes "install_dir") (bytes "string") false)
        (bytes "\"local/steamapp\""))
      (field (bytes "beta")
        (with_default (attr (bytes "beta") (bytes "string") false) (bytes "\"\""))
        (field (bytes "beta_password")
          (with_default (attr (bytes "beta_password") (bytes "string") false) (bytes "\"\""))
          (field (bytes "validate")
            (with_default (attr (bytes "validate") (bytes "bool") false) (bytes "false"))
            (field (bytes "platform")
              (with_default (attr (bytes "platform") (bytes "string") false) (bytes "\"\""))
              (field (bytes "proton_path")
                (with_default (attr (bytes "proton_path") (bytes "string") false) (bytes "\"\""))
                (field (bytes "compat_data_path")
                  (with_default (attr (bytes "compat_data_path") (bytes "string") false)
                    (bytes "\"\""))
                  (field (bytes "compat_client_path")
                    (with_default (attr (bytes "compat_client_path") (bytes "string") false)
                      (bytes "\"\""))
                    (field (bytes "windows_display")
                      (with_default (attr (bytes "windows_display") (bytes "bool") false)
                        (bytes "false"))
                      (field (bytes "update_on_start")
                        (with_default (attr (bytes "update_on_start") (bytes "bool") false)
                          (bytes "false"))
                        (field (bytes "install_timeout")
                          (with_default (attr (bytes "install_timeout") (bytes "string") false)
                            (bytes "\"\""))
                          (field (bytes "repair_stale_manifest")
                            (with_default
                              (attr (bytes "repair_stale_manifest") (bytes "bool") false)
                              (bytes "false"))
                            (field (bytes "login_anonymous")
                              (with_default (attr (bytes "login_anonymous") (bytes "bool") false)
                                (bytes "false"))
                              (field (bytes "login_username")
                                (with_default (attr (bytes "login_username") (bytes "string") false)
                                  (bytes "\"\""))
                                (field (bytes "login_password")
                                  (with_default
                                    (attr (bytes "login_password") (bytes "string") false)
                                    (bytes "\"\""))
                                  (field (bytes "login_password_file")
                                    (with_default
                                      (attr (bytes "login_password_file") (bytes "string") false)
                                      (bytes "\"\""))
                                    (field (bytes "config_files")
                                      (with_default
                                        (attr (bytes "config_files") (bytes "list(map(string))")
                                          false)
                                        (bytes "[]"))
                                      (field (bytes "follow_logs")
                                        (with_default
                                          (attr (bytes "follow_logs") (bytes "list(string)") false)
                                          (bytes "[]"))
                                        (field (bytes "launch")
                                          (block (bytes "launch") false launch_spec)
                                          (no_fields))))))))))))))))))))
