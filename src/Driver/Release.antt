-- ===== src/Driver/Release.antt =====
-- driver/driver.go: how a slot is given back, when SetConfig may have replaced the channel that the
-- slot was taken from. The function that gives a slot back receives from the channel of the moment.
use nomad_driver_steamcmd.Base.{
  ℕ, ltb, ◌+◌, ◌-◌, ◌<◌, ◌≤◌, Option, none, some, some-eq, List, [], ◌∷◌, ◌++◌, if◌then◌else◌, ◌≡◌,
  refl, sym, ap, ◌∙◌, arith, subst,
}
use nomad_driver_steamcmd.Driver.{Slot, of_channel, no_slot, in_channel}
use nomad_driver_steamcmd.Driver.Slots.{in_channel-append}

-- `installSem`: its capacity if there is a channel, how many elements it has, and the slots that are
-- held, each with a receive to come or with none.
pub record Semaphore : Type 0 where
  pub capacity : Option ℕ
  pub filled : ℕ
  pub held : List Slot

-- The channel that SetConfig makes for a limit.
unfoldable pub capacity_for : ℕ → Option ℕ
capacity_for limit = if ltb 0 limit then some limit else none

-- One send, receive or replacement of the channel; a receive from an empty channel or from none waits,
-- and is no step.
pub data SemaphoreStep (s t : Semaphore) : Type 0 where
  unbounded : s.capacity ≡ none → t ≡ record s { held = no_slot ∷ s.held } → SemaphoreStep s t
  sent :
      (capacity : ℕ)
      → s.capacity ≡ some capacity
      → s.filled < capacity
      → t ≡ record s { filled = s.filled + 1; held = of_channel ∷ s.held }
      → SemaphoreStep s t
  cancelled : t ≡ record s { held = no_slot ∷ s.held } → SemaphoreStep s t
  dropped :
      (before after : List Slot)
      → s.held ≡ before ++ (no_slot ∷ after)
      → t ≡ record s { held = before ++ after }
      → SemaphoreStep s t
  received :
      (before after : List Slot) (capacity : ℕ)
      → s.held ≡ before ++ (of_channel ∷ after)
      → s.capacity ≡ some capacity
      → 0 < s.filled
      → t ≡ record s { filled = s.filled - 1; held = before ++ after }
      → SemaphoreStep s t
  configured :
      (limit : ℕ) → t ≡ record s { capacity = capacity_for limit; filled = 0 } → SemaphoreStep s t

-- The configuration is not set while an install holds a slot of the channel.
abbrev pub IsCalm : (s t : Semaphore) → SemaphoreStep s t → Type 0
IsCalm s t (configured limit e) = in_channel s.held ≡ 0
IsCalm s t _ = Unit

pub data Reached : Semaphore → Type 0 where
  begin : (limit : ℕ) → Reached (record { capacity = capacity_for limit; filled = 0; held = [] })
  step : (s t : Semaphore) → Reached s → (m : SemaphoreStep s t) → IsCalm s t m → Reached t

-- The channel has one element for each slot of it that is held, and no more than its capacity.
record Even (s : Semaphore) : Type 0 where
  pub counted : s.filled ≡ in_channel s.held
  pub bounded : (c : ℕ) → s.capacity ≡ some c → s.filled ≤ c
  pub backed : s.capacity ≡ none → s.filled ≡ 0

step-Even : (s t : Semaphore) (m : SemaphoreStep s t) → IsCalm s t m → Even s → Even t
unfolding in_channel
step-Even s t (unbounded q e) calm even =
    subst Even (sym e)
      (record { counted = even.counted; bounded = even.bounded; backed = even.backed })
step-Even s t (cancelled e) calm even =
    subst Even (sym e)
      (record { counted = even.counted; bounded = even.bounded; backed = even.backed })
step-Even s t (sent capacity q free e) calm even = subst Even (sym e) (record {
  counted = omega (arith, even.counted);
  bounded = λ c h. let same : capacity ≡ c = some-eq (sym q ∙ h) in omega (arith, same, free);
  backed = λ h. cc;
})
step-Even s t (dropped before after q e) calm even = subst Even (sym e) (record {
  counted = omega (
    arith,
    even.counted,
    ap in_channel q,
    in_channel-append before (no_slot ∷ after),
    in_channel-append before after,
  );
  bounded = even.bounded;
  backed = even.backed;
})
step-Even s t (received before after capacity q has some_ e) calm even =
    subst Even (sym e) (record {
      counted = omega (
        arith,
        even.counted,
        ap in_channel q,
        in_channel-append before (of_channel ∷ after),
        in_channel-append before after,
      );
      bounded = λ c h. omega (arith, even.bounded c h);
      backed = λ h. omega (arith, even.backed h);
    })
step-Even s t (configured limit e) calm even =
    subst Even (sym e)
      (record { counted = sym calm; bounded = λ c h. omega arith; backed = λ h. refl })

Reached-Even : (s : Semaphore) → Reached s → Even s
unfolding in_channel
Reached-Even s (begin limit) = record {
  counted = refl;
  bounded = λ c h. omega arith;
  backed = λ h. refl;
}
Reached-Even s (step before _ reached m calm) =
    step-Even before s m calm (Reached-Even before reached)

-- As long as the configuration is not set while a slot of the channel is held, the channel has one
-- element for each such slot, in whatever order tasks ask for slots, give up and release them; so no
-- more tasks hold one at once than the limit allows.
pub Reached-bounded :
    (s : Semaphore) (capacity : ℕ)
    → Reached s
    → s.capacity ≡ some capacity
    → (in_channel s.held ≡ s.filled) × (in_channel s.held ≤ capacity)
Reached-bounded s capacity reached q =
    let even = Reached-Even s reached in
    (sym even.counted, omega (arith, even.counted, even.bounded capacity q))

no_capacity :
    (s : Semaphore)
    → Even s
    → 0 < s.filled
    → (o : Option ℕ) → s.capacity ≡ o
    → (c : ℕ) × (s.capacity ≡ some c) × (s.filled ≤ c)
no_capacity s even has none q = absurd (omega (arith, even.backed q))
no_capacity s even has (some c) q = (c, q, even.bounded c q)

-- An install that holds a slot of the channel gives it back at once: as long as the configuration is
-- not set while such a slot is held, the channel has an element to receive.
pub Reached-received :
    (s : Semaphore) (before after : List Slot)
    → Reached s
    → s.held ≡ before ++ (of_channel ∷ after)
    → SemaphoreStep s (record s { filled = s.filled - 1; held = before ++ after })
unfolding in_channel
Reached-received s before after reached q =
    let even = Reached-Even s reached in
    let has : 0 < s.filled =
      omega (arith, even.counted, ap in_channel q, in_channel-append before (of_channel ∷ after)) in
    let (c, e, _) = no_capacity s even has s.capacity refl in received before after c q e has refl
