-- ===== src/Process/Marker.antt =====
-- Which environments carry a task's marker.
use mathlib.Core.Bool.{false≢true}
use mathlib.Core.List.{append-nil, append_assoc, append_cancel_left}
use nomad_driver_steamcmd.Base.{
  ℕ, zero, suc, nat_eq, Text, text_beq, text_eq, text_beq_iff, has_prefix, contains_byte, split,
  any, length, add_to_head, ◌==◌, Bool, Bool-cases, true, false, ◌||◌, Option, none, some, List, [],
  ◌∷◌, ◌++◌, ◌≡◌, ◌≢◌, ◌⊎◌, ◌≤◌, ◌<◌, refl, sym, ap, ◌∙◌, arith, inl, inr,
}
use nomad_driver_steamcmd.FilePath.{slash}
use nomad_driver_steamcmd.FilePath.Elements.{split-append, split_single}
use nomad_driver_steamcmd.Process.{
  task_marker_env, task_key, task_marker, cut_entry, byte_at, is_marked, has_marker_from,
  has_marker,
}

abbrev remaining : Text × Option Text → List Text
remaining (entry, none) = entry ∷ []
remaining (entry, some rest) = entry ∷ split 0 rest

split-cut_entry : (environ : Text) → split 0 environ ≡ remaining (cut_entry environ)
unfolding split cut_entry
split-cut_entry [] = refl
split-cut_entry (b ∷ environ) = elim (Bool-cases (b == 0)) [
  | inl here ↦ rw here refl
  | inr other ↦
      rw (other, split-cut_entry environ) (pushed (cut_entry environ).0 (cut_entry environ).1)
]
  where
    pushed :
        (entry : Text) (rest : Option Text)
        → add_to_head b (remaining (entry, rest)) ≡ remaining (b ∷ entry, rest)
    pushed entry none = refl
    pushed entry (some r) = refl

cut_entry-length :
    (environ rest : Text) → (cut_entry environ).1 ≡ some rest → length rest < length environ
unfolding cut_entry
cut_entry-length [] rest h = ground arith
cut_entry-length (b ∷ environ) rest h = elim (Bool-cases (b == 0)) [
  | inl here ↦ ground arith
  | inr other ↦ ground (arith, cut_entry-length environ rest)
]

module _ (marker : Text) (named : marker ≢ []) where
  abbrev marked : Text → Bool
  marked entry = is_marked entry marker

  marked-empty : marked [] ≡ false
  unfolding is_marked text_beq has_prefix
  marked-empty = go marker named
    where
      go : (m : Text) → m ≢ [] → is_marked [] m ≡ false
      go [] h = absurd (h refl)
      go (b ∷ m) h = refl

  -- One turn of the loop.
  turn : (c : Text × Option Text) → ℕ → Bool
  turn c fuel =
      marked c.0 || elim c.1 [ some behind ↦ has_marker_from fuel behind marker | none ↦ false ]

  has_marker_from-turn :
      (fuel b : ℕ) (environ : Text)
      → has_marker_from (suc fuel) (b ∷ environ) marker ≡ turn (cut_entry (b ∷ environ)) fuel
  unfolding has_marker_from text_beq turn
  has_marker_from-turn fuel b environ = refl

  turn-any :
      (fuel : ℕ) (entry : Text) (rest : Option Text)
      → ((r : Text) → rest ≡ some r → has_marker_from fuel r marker ≡ any marked (split 0 r))
      → turn (entry, rest) fuel ≡ any marked (remaining (entry, rest))
  unfolding turn any
  turn-any fuel entry none later = refl
  turn-any fuel entry (some r) later = rw (later r refl) refl

  has_marker_from-any :
      (fuel : ℕ) (environ : Text)
      → length environ ≤ fuel
      → has_marker_from fuel environ marker ≡ any marked (split 0 environ)
  unfolding has_marker_from split any text_beq
  has_marker_from-any zero [] h = rw marked-empty refl
  has_marker_from-any zero (b ∷ environ) h = absurd (omega arith)
  has_marker_from-any (suc fuel) [] h = rw marked-empty refl
  has_marker_from-any (suc fuel) (b ∷ environ) h =
      has_marker_from-turn fuel b environ
      ∙ turn-any fuel (cut_entry (b ∷ environ)).0 (cut_entry (b ∷ environ)).1
          (λ r cut. has_marker_from-any fuel r (shorter r (cut_entry-length (b ∷ environ) r cut)))
      ∙ ap (any marked) (sym (split-cut_entry (b ∷ environ)))
    where
      shorter : (r : Text) → length r < suc (length environ) → length r ≤ fuel
      shorter r less = omega arith

  -- An environment carries a marker exactly when one of its NUL-separated entries is the marker, or
  -- the marker followed by a slash.
  pub has_marker-any : (environ : Text) → has_marker environ marker ≡ any marked (split 0 environ)
  unfolding has_marker
  has_marker-any environ = has_marker_from-any (length environ) environ (omega arith)

has_prefix-byte_at :
    (entry marker : Text)
    → has_prefix entry marker ≡ true
    → (rest : Text) × (entry ≡ marker ++ rest)
unfolding has_prefix
has_prefix-byte_at entry [] h = (entry, refl)
has_prefix-byte_at [] (b ∷ marker) h = absurd (false≢true h)
has_prefix-byte_at (a ∷ entry) (b ∷ marker) h =
    let (rest, e) = has_prefix-byte_at entry marker (ground arith) in (rest, ground arith)

byte_at-length : (marker rest : Text) → byte_at (length marker) (marker ++ rest) ≡ byte_at 0 rest
unfolding byte_at
byte_at-length [] rest = refl
byte_at-length (b ∷ marker) rest = byte_at-length marker rest

-- A marked entry is the marker, or the marker, a slash and more.
is_marked-cases :
    (entry marker : Text)
    → is_marked entry marker ≡ true
    → (entry ≡ marker) ⊎ ((more : Text) × (entry ≡ marker ++ (slash ∷ more)))
unfolding is_marked
is_marked-cases entry marker h = elim (Bool-cases (entry == marker)) [
  | inl same ↦ inl ((text_beq_iff entry marker).0 same)
  | inr other ↦
      let (rest, e) = has_prefix-byte_at entry marker (ground arith) in inr (behind other rest e)
]
  where
    behind :
        (entry == marker) ≡ false
        → (rest : Text) → entry ≡ marker ++ rest
        → (more : Text) × (entry ≡ marker ++ (slash ∷ more))
    behind other [] e =
        absurd (false≢true (sym other ∙ (text_beq_iff entry marker).1 (e ∙ append-nil marker)))
    behind other (b ∷ more) e =
        let byte : byte_at (length marker) entry ≡ some b =
          ap (byte_at (length marker)) e ∙ byte_at-length marker (b ∷ more) in
        let is_slash : b ≡ slash = ground arith in
        (more, e ∙ ap (λ x. marker ++ (x ∷ more)) is_slash)

split-≢-nil : (s : Text) → split slash s ≢ []
unfolding split
split-≢-nil [] h = cc
split-≢-nil (b ∷ s) h = elim (Bool-cases (b == slash)) [
  | inl here ↦ absurd (refute1 (rw here at h))
  | inr other ↦ absurd (headed (split slash s) (rw other at h))
]
  where
    refute1 : [] ∷ split slash s ≡ [] → ⊥
    refute1 k = cc

    headed : (pieces : List Text) → add_to_head b pieces ≡ [] → ⊥
    headed [] k = cc
    headed (piece ∷ pieces) k = cc

split-task_key :
    (alloc task : Text)
    → contains_byte alloc slash ≡ false
    → split slash (task_key alloc task) ≡ alloc ∷ split slash task
unfolding task_key
split-task_key alloc task plain = split-append slash alloc task plain

task_marker-cancel :
    (key key' more : Text) → task_marker key ≡ task_marker key' ++ more → key ≡ key' ++ more
unfolding task_marker
task_marker-cancel key key' more e =
    let cancelled =
      append_cancel_left task_marker_env _ _
        (e ∙ append_assoc task_marker_env (b'=' ∷ key') more) in
    cc

module _ (alloc task alloc' task' : Text) (plain_alloc : contains_byte alloc slash ≡ false)
    (plain_task : contains_byte task slash ≡ false)
    (plain_alloc' : contains_byte alloc' slash ≡ false)
    (plain_task' : contains_byte task' slash ≡ false) where
  pieces : split slash (task_key alloc task) ≡ alloc ∷ task ∷ []
  pieces =
      split-task_key alloc task plain_alloc
      ∙ ap (λ ps. alloc ∷ ps) (split_single slash task plain_task)

  pieces' : split slash (task_key alloc' task') ≡ alloc' ∷ task' ∷ []
  pieces' =
      split-task_key alloc' task' plain_alloc'
      ∙ ap (λ ps. alloc' ∷ ps) (split_single slash task' plain_task')

  deeper :
      (more : Text)
      → split slash (task_key alloc' task' ++ (slash ∷ more)) ≡ alloc' ∷ task' ∷ split slash more
  unfolding task_key
  deeper more =
      ap (split slash) (append_assoc alloc' (b'/' ∷ task') (slash ∷ more))
      ∙ split-append slash alloc' (task' ++ (slash ∷ more)) plain_alloc'
      ∙ ap (λ ps. alloc' ∷ ps) (split-append slash task' more plain_task')

  -- No task is taken for another: if the marker of one task counts as that of another, they have the
  -- same allocation and the same name, given that none of the four texts contains a slash.
  pub is_marked-injective :
      is_marked (task_marker (task_key alloc task)) (task_marker (task_key alloc' task')) ≡ true
      → (alloc ≡ alloc') × (task ≡ task')
  is_marked-injective h = elim (is_marked-cases _ _ h) [
    | inl same ↦
        let keys =
          task_marker-cancel (task_key alloc task) (task_key alloc' task') []
            (same ∙ sym (append-nil _)) in
        let lists = sym pieces ∙ ap (split slash) (keys ∙ append-nil _) ∙ pieces' in (cc, cc)
    | inr (more, e) ↦
        let keys =
          task_marker-cancel (task_key alloc task) (task_key alloc' task') (slash ∷ more) e in
        let lists = sym pieces ∙ ap (split slash) keys ∙ deeper more in
        absurd (split-≢-nil more (cc))
  ]
