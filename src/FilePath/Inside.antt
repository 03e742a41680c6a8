-- ===== src/FilePath/Inside.antt =====
-- What the driver's test of `Rel` decides, for absolute paths: whether the target lies below the
-- base.
use mathlib.Core.List.{append-nil}
use mathlib.Core.Bool.{false≢true}
use nomad_driver_steamcmd.Base.{
  Text, bytes, nat_eq, text_eq, text_beq, text_beq_iff, Bool-cases, ◌==◌, split, join_with,
  has_prefix, All, Bool, true, false, List, [], ◌∷◌, ◌++◌, map, ◌≡◌, ◌≢◌, ◌↔◌, ◌⊎◌, refl, sym, ap,
  ◌∙◌, inl, inr, arith, if◌then◌else◌, Option, none, some,
}
use nomad_driver_steamcmd.FilePath.{
  slash, dot, dot_dot, is_abs, clean_pieces, clean, elements, climb, rel_elements, rel, leaves,
  escapes,
}
use nomad_driver_steamcmd.FilePath.Elements.{split-join_with}
use nomad_driver_steamcmd.FilePath.Clean.{
  IsName, All-IsName-Plain, clean_pieces-IsName, elements-clean, is_abs-clean,
}

-- `target` is `base` with further elements behind it.
pub record IsBelow (base target : List Text) : Type 0 where
  pub rest : List Text
  pub proper : rest ≢ []
  pub extends : target ≡ base ++ rest

leaves-join_with : (pieces : List Text) → leaves (join_with slash (dot_dot ∷ pieces)) ≡ true
unfolding leaves join_with text_beq has_prefix
leaves-join_with [] = refl
leaves-join_with (piece ∷ pieces) = refl

climb_name :
    (b : Text) (base target : List Text)
    → IsName b
    → climb (b ∷ base) target
      ≡ some (join_with slash (dot_dot ∷ (map (λ _. dot_dot) base ++ target)))
unfolding climb
climb_name b base target name = elim (Bool-cases (b == dot_dot)) [
  | inl up ↦ absurd (name.not_dot_dot ((text_beq_iff b dot_dot).0 up))
  | inr down ↦ rw down
]

abbrev Extends : List Text → List Text → Option Text → Type 0
Extends base target r =
    (rest : List Text) × (target ≡ base ++ rest) × (r ≡ some (join_with slash rest))

abbrev LeadsUp : Option Text → Type 0
LeadsUp way = (r : Text) × (way ≡ some r) × (leaves r ≡ true)

climb-LeadsUp : (b : Text) (base target : List Text) → IsName b → LeadsUp (climb (b ∷ base) target)
climb-LeadsUp b base target name = (_, climb_name b base target name, leaves-join_with _)

-- Two lists of elements: the second extends the first, or the way between them leads up.
rel_elements-cases :
    (base target : List Text)
    → All IsName base
    → Extends base target (rel_elements base target) ⊎ LeadsUp (rel_elements base target)
unfolding rel_elements
rel_elements-cases [] target h = inl (target, refl, refl)
rel_elements-cases (b ∷ base) [] (name, h) = inr (climb-LeadsUp b base [] name)
rel_elements-cases (b ∷ base) (t ∷ target) (name, h) = elim (Bool-cases (b == t)) [
  | inl same ↦ rw same (extend ((text_beq_iff b t).0 same) (rel_elements-cases base target h))
  | inr other ↦ rw other (inr (climb-LeadsUp b base (t ∷ target) name))
]
  where
    extend :
        {way : Option Text}
        → b ≡ t
        → Extends base target way ⊎ LeadsUp way
        → Extends (b ∷ base) (t ∷ target) way ⊎ LeadsUp way
    extend q (inl (rest, e, r)) = inl (rest, cc, r)
    extend q (inr up) = inr up

has_prefix-append : (s t : Text) → has_prefix s t ≡ true → (rest : Text) × (s ≡ t ++ rest)
unfolding has_prefix
has_prefix-append s [] h = (s, refl)
has_prefix-append [] (b ∷ t) h = cc
has_prefix-append (a ∷ s) (b ∷ t) h =
    let (rest, e) = has_prefix-append s t (ground arith) in (rest, ground arith)

abbrev LeadingDots : List Text → Type 0
LeadingDots pieces =
    (top : Text) × (rest : List Text) × (pieces ≡ top ∷ rest) × ((top ≡ dot) ⊎ (top ≡ dot_dot))

leaves-LeadingDots : (r : Text) → leaves r ≡ true → LeadingDots (split slash r)
unfolding leaves split
leaves-LeadingDots r h = elim (Bool-cases (r == dot)) [
  | inl here ↦ (dot, [], ap (split slash) ((text_beq_iff r dot).0 here), inl refl)
  | inr deeper ↦ elim (Bool-cases (r == dot_dot)) [
    | inl up ↦ (dot_dot, [], ap (split slash) ((text_beq_iff r dot_dot).0 up), inr refl)
    | inr other ↦
        let (rest, e) = has_prefix-append r (bytes "../") (ground arith) in
        (dot_dot, split slash rest, ap (split slash) e, inr refl)
  ]
]

-- A path of names does not lead up.
leaves-names :
    (piece : Text) (pieces : List Text)
    → All IsName (piece ∷ pieces)
    → leaves (join_with slash (piece ∷ pieces)) ≡ false
leaves-names piece pieces h = elim (Bool-cases (leaves (join_with slash (piece ∷ pieces)))) [
  | inr below ↦ below
  | inl up ↦ absurd (
      refute (leaves-LeadingDots _ up)
        (split-join_with slash piece pieces (All-IsName-Plain (piece ∷ pieces) h)))
]
  where
    refute : {split_again : List Text} → LeadingDots split_again → split_again ≡ piece ∷ pieces → ⊥
    refute (top, rest, e, inl d) f = h.0.not_dot (cc (e, f, d))
    refute (top, rest, e, inr d) f = h.0.not_dot_dot (cc (e, f, d))

append_proper : (base rest : List Text) → rest ≢ [] → base ≢ base ++ rest
append_proper [] rest h e = h (sym e)
append_proper (b ∷ base) rest h e = append_proper base rest h (cc)

rel_elements-append :
    (base rest : List Text) → rel_elements base (base ++ rest) ≡ some (join_with slash rest)
unfolding rel_elements climb
rel_elements-append [] rest = refl
rel_elements-append (b ∷ base) rest = rw ((text_beq_iff b b).1 refl) (rel_elements-append base rest)

is_abs-ne-dot : (p : Text) → is_abs p ≡ true → (p == dot) ≡ false
unfolding is_abs text_beq
is_abs-ne-dot [] h = cc
is_abs-ne-dot (a ∷ p) h = ground arith

All-append_right {ℓ κ} :
    {A : Type ℓ} (P : A → Type κ) (xs ys : List A) → All P (xs ++ ys) → All P ys
All-append_right P [] ys h = h
All-append_right P (x ∷ xs) ys h = All-append_right P xs ys h.1

leaves-rest :
    (rest : List Text) → rest ≢ [] → All IsName rest → leaves (join_with slash rest) ≡ false
leaves-rest [] proper h = absurd (proper refl)
leaves-rest (piece ∷ pieces) proper h = leaves-names piece pieces h

clean-eq :
    (p q : Text)
    → is_abs p ≡ true
    → is_abs q ≡ true
    → clean_pieces p ≡ clean_pieces q
    → clean p ≡ clean q
unfolding clean
clean-eq p q hp hq e = rw (hp, hq, e)

clean_pieces-eq :
    (p q : Text)
    → is_abs p ≡ true
    → is_abs q ≡ true
    → clean p ≡ clean q
    → clean_pieces p ≡ clean_pieces q
clean_pieces-eq p q hp hq e = sym (elements-clean p hp) ∙ ap elements e ∙ elements-clean q hq

refused : Option Text → Bool
refused way = elim way [ none ↦ true | some r ↦ leaves r ]

module _ (base target : Text) (base_abs : is_abs base ≡ true)
    (target_abs : is_abs target ≡ true) where
  -- `Rel` between two absolute paths walks their cleaned elements.
  rel_abs : rel base target ≡ (
      if clean target == clean base
      then some dot
      else rel_elements (clean_pieces base) (clean_pieces target))
  unfolding rel
  rel_abs = rw (is_abs-ne-dot (clean base) (is_abs-clean base base_abs)) (
      rw (is_abs-clean base base_abs, is_abs-clean target target_abs)
        (rw (elements-clean base base_abs, elements-clean target target_abs)))

  escapes_abs : escapes base target ≡ (
      if clean target == clean base
      then true
      else refused (rel_elements (clean_pieces base) (clean_pieces target)))
  unfolding escapes refused leaves text_beq
  escapes_abs =
      rw (rel_abs, escapes)
        (elim (Bool-cases (clean target == clean base)) [
          | inl same ↦ rw same
          | inr other ↦ rw other
        ])

  refused-false :
      clean target ≢ clean base
      → refused (rel_elements (clean_pieces base) (clean_pieces target)) ≡ false
      → IsBelow (clean_pieces base) (clean_pieces target)
  unfolding refused
  refused-false other h =
      elim (rel_elements-cases _ (clean_pieces target) (clean_pieces-IsName base base_abs)) [
        | inl (rest, e, r) ↦ record {
          rest = rest;
          proper = λ empty. other (
              clean-eq target base target_abs base_abs
                (e ∙ ap (λ k. clean_pieces base ++ k) empty ∙ append-nil _));
          extends = e;
        }
        | inr (r, e, up) ↦ absurd (false≢true (sym h ∙ rw e up))
      ]

  refused-IsBelow :
      IsBelow (clean_pieces base) (clean_pieces target)
      → refused (rel_elements (clean_pieces base) (clean_pieces target)) ≡ false
  unfolding refused
  refused-IsBelow below =
      rw (below.extends, rel_elements-append)
        (leaves-rest below.rest below.proper (
          All-append_right IsName (clean_pieces base) below.rest
            (rw below.extends at (clean_pieces-IsName target target_abs))))

  -- Of two absolute paths the driver accepts the second exactly when it lies below the first.
  pub escapes-iff-IsBelow :
      (escapes base target ≡ false) ↔ IsBelow (clean_pieces base) (clean_pieces target)
  escapes-iff-IsBelow = elim (Bool-cases (clean target == clean base)) [
    | inl same ↦ (
      λ h. absurd (false≢true (sym h ∙ rw escapes_abs (rw same))),
      λ below. absurd (
          append_proper (clean_pieces base) below.rest below.proper (
            sym (clean_pieces-eq target base target_abs base_abs ((text_beq_iff _ _).0 same))
            ∙ below.extends)),
    )
    | inr other ↦ (
      λ h.
          refused-false (λ e. false≢true (sym other ∙ (text_beq_iff _ _).1 e))
            (rw other at (rw escapes_abs at h)),
      λ below. rw escapes_abs (rw other (refused-IsBelow below)),
    )
  ]
