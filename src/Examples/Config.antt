-- ===== src/Examples/Config.antt =====
-- The schemas: every key is the name that it stands for, and everything optional has a default.
use nomad_driver_steamcmd.Base.{nat_eq, Text, text_eq, text_beq, ◌==◌, ◌&&◌, Bool, true, ◌≡◌, refl}
use nomad_driver_steamcmd.Config.Schema.{
  Spec, attr, with_default, block, Fields, no_fields, field, config_spec, launch_spec,
  task_config_spec,
}

-- The name inside a specification, and whether a value is there when the configuration has none.
unfoldable name_of : Spec → Text
name_of (attr name kind required) = name
name_of (with_default spec literal) = name_of spec
name_of (block name required inner) = name

unfoldable has_value : Spec → Bool
has_value (attr name kind required) = required
has_value (with_default spec literal) = true
has_value (block name required inner) = true

unfoldable is_sound : Fields → Bool
unfolding name_of has_value
is_sound no_fields = true
is_sound (field key spec later) = key == name_of spec && has_value spec && is_sound later

all_sound : (is_sound config_spec && is_sound launch_spec && is_sound task_config_spec) ≡ true
unfolding is_sound text_beq
all_sound = refl
