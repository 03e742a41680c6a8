-- ===== src/Examples/Process.antt =====
-- Markers and states of processes.
use nomad_driver_steamcmd.Base.{
  nat_eq, Text, bytes, text_beq, text_eq, has_prefix, contains_byte, split, any, true, false, [],
  ◌∷◌, ◌++◌, ◌≡◌, refl,
}
use nomad_driver_steamcmd.Process.{task_key, task_marker, is_marked, has_marker}
use nomad_driver_steamcmd.Process.Marker.{has_marker-any, is_marked-injective}

abbrev marker : Text
marker = bytes "STEAMCMD_TASK_ID=ab-12/server"

marker-task : task_marker (task_key (bytes "ab-12") (bytes "server")) ≡ marker
unfolding task_marker task_key
marker-task = refl

-- An environment as v0.4.3 wrote it, and one of a task with a longer name.
markers :
    (has_marker (bytes "A=1" ++ (0 ∷ (marker ++ bytes "/beef"))) marker ≡ true)
    × (has_marker (bytes "A=1" ++ (0 ∷ (marker ++ (bytes "2" ++ (0 ∷ []))))) marker ≡ false)
unfolding has_marker text_beq has_prefix
markers = (refl, refl)

has_marker-any_example :
    has_marker (bytes "A=1" ++ (0 ∷ marker)) marker
    ≡ any (λ entry. is_marked entry marker) (split 0 (bytes "A=1" ++ (0 ∷ marker)))
has_marker-any_example = has_marker-any marker (λ h. cc) (bytes "A=1" ++ (0 ∷ marker))

is_marked-injective_example : (bytes "ab-12" ≡ bytes "ab-12") × (bytes "server" ≡ bytes "server")
unfolding is_marked text_beq has_prefix contains_byte task_marker task_key
is_marked-injective_example =
    is_marked-injective (bytes "ab-12") (bytes "server") (bytes "ab-12") (bytes "server") refl refl
      refl refl refl
