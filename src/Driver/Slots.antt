-- ===== src/Driver/Slots.antt =====
-- The slots that are held, and what SetConfig makes of the limit.
use nomad_driver_steamcmd.Base.{
  ltb, Text, text_eq, ◌==◌, Bool-cases, false, Option, none, some, List, [], ◌∷◌, ◌++◌,
  if◌then◌else◌, Result, ok, >>=-eq-ok, ok-injective, text_beq, subst, ◌≡◌, ◌+◌, refl, arith, inl,
  inr,
}
use nomad_driver_steamcmd.Config.{PluginConfig}
use nomad_driver_steamcmd.Driver.{
  zero_config, Driver, Slot, of_channel, no_slot, in_channel, set_config, with_steamcmd,
}

pub in_channel-append : (xs ys : List Slot) → in_channel (xs ++ ys) ≡ in_channel xs + in_channel ys
unfolding in_channel
in_channel-append [] ys = omega arith
in_channel-append (of_channel ∷ xs) ys = omega (arith, in_channel-append xs ys)
in_channel-append (no_slot ∷ xs) ys = in_channel-append xs ys

with_steamcmd-named : (c : PluginConfig) → ((with_steamcmd c).steamcmd_path == []) ≡ false
unfolding with_steamcmd text_beq
with_steamcmd-named c = elim (Bool-cases (c.steamcmd_path == [])) [
  | inl empty ↦ rw empty refl
  | inr given ↦ rw given given
]

-- A configuration that is accepted always names a program, and limits installs exactly if its number
-- is positive; what the agent passed on before is kept if nothing new comes.
pub set_config-slots :
    {A : Type 0} (decode : Text → Result PluginConfig) (raw : Text) (agent : Option A)
    (d d' : Driver A)
    → set_config decode raw agent d ≡ ok d'
    → ((d'.config.steamcmd_path == []) ≡ false)
      × (d'.slots
          ≡ (if ltb 0 d'.config.max_concurrent then some d'.config.max_concurrent else none))
      × (agent ≡ none → d'.agent ≡ d.agent)
unfolding set_config
set_config-slots {A} decode raw agent d d' h =
    let (decoded, q, made) = >>=-eq-ok (if raw == [] then ok zero_config else decode raw) _ h in
    shown decoded (ok-injective made)
  where
    configured : PluginConfig → Driver A
    configured decoded = record {
      config = with_steamcmd decoded;
      agent = elim agent [ some a ↦ some a | none ↦ d.agent ];
      slots =
          if ltb 0 (with_steamcmd decoded).max_concurrent
          then some (with_steamcmd decoded).max_concurrent
          else none;
    }

    shown :
        (decoded : PluginConfig)
        → configured decoded ≡ d'
        → ((d'.config.steamcmd_path == []) ≡ false)
          × (d'.slots
              ≡ (if ltb 0 d'.config.max_concurrent then some d'.config.max_concurrent else none))
          × (agent ≡ none → d'.agent ≡ d.agent)
    shown decoded e =
        subst
          (λ r.
            ((r.config.steamcmd_path == []) ≡ false)
            × (r.slots
                ≡ (if ltb 0 r.config.max_concurrent then some r.config.max_concurrent else none))
            × (agent ≡ none → r.agent ≡ d.agent))
          e (with_steamcmd-named decoded, refl, λ none_. rw none_ refl)
