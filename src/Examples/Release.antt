-- ===== src/Examples/Release.antt =====
-- A slot that is taken and given back.
use nomad_driver_steamcmd.Base.{some, [], ◌∷◌, ◌≡◌, ◌≤◌, refl, arith}
use nomad_driver_steamcmd.Driver.{of_channel, no_slot, in_channel}
use nomad_driver_steamcmd.Driver.Release.{
  Semaphore, capacity_for, SemaphoreStep, sent, cancelled, Reached, Reached-bounded, begin, step,
  Reached-received,
}

-- One install holds a slot.
abbrev one_install : Semaphore
one_install = record { capacity = some 2; filled = 1; held = of_channel ∷ [] }

one_install-Reached : Reached one_install
unfolding capacity_for in_channel
one_install-Reached = step _ one_install (begin 2) (sent 2 refl (omega arith) refl) tt

Reached-received_example :
    SemaphoreStep one_install (record { capacity = some 2; filled = 0; held = [] })
Reached-received_example = Reached-received one_install [] [] one_install-Reached refl

-- Two installs, and one that gave up waiting, with a limit of two.
abbrev two_installs : Semaphore
two_installs = record {
  capacity = some 2;
  filled = 2;
  held = no_slot ∷ of_channel ∷ of_channel ∷ [];
}

two_installs-Reached : Reached two_installs
unfolding capacity_for in_channel
two_installs-Reached =
    let both : Semaphore = record one_install {
      filled = 2;
      held = of_channel ∷ one_install.held;
    } in
    step both two_installs
      (step one_install both one_install-Reached (sent 2 refl (omega arith) refl) tt)
      (cancelled refl) tt

Reached-bounded_example :
    (in_channel two_installs.held ≡ two_installs.filled) × (in_channel two_installs.held ≤ 2)
Reached-bounded_example = Reached-bounded two_installs 2 two_installs-Reached refl
