-- ===== src/FilePath/Elements.antt =====
-- Cutting a path at its slashes and joining the pieces again.
use nomad_driver_steamcmd.Base.{
  ℕ, Text, nat_eq, nat_beq_iff, Bool-cases, ◌==◌, split, join_with, contains_byte, add_to_head, All,
  false, List, [], ◌∷◌, ◌++◌, ◌≡◌, refl, inl, inr, arith,
}

module _ (sep : ℕ) where
  abbrev pub Plain : Text → Type 0
  Plain piece = contains_byte piece sep ≡ false

  pub split-append :
      (piece : Text) (s : Text) → Plain piece → split sep (piece ++ (sep ∷ s)) ≡ piece ∷ split sep s
  unfolding split contains_byte
  split-append [] s h = ground (arith, nat_beq_iff sep sep)
  split-append (a ∷ piece) s h = ground (arith, split-append piece s)

  pub split_single : (piece : Text) → Plain piece → split sep piece ≡ piece ∷ []
  unfolding split contains_byte
  split_single [] h = refl
  split_single (a ∷ piece) h = ground (arith, split_single piece)

  -- Joined pieces come apart into the same pieces.
  pub split-join_with :
      (piece : Text) (pieces : List Text)
      → All Plain (piece ∷ pieces)
      → split sep (join_with sep (piece ∷ pieces)) ≡ piece ∷ pieces
  unfolding join_with
  split-join_with piece [] h = split_single piece h.0
  split-join_with piece (next ∷ pieces) h = ground (
    arith,
    split-append piece (join_with sep (next ∷ pieces)) h.0,
    split-join_with next pieces h.1,
  )

  add_to_head-Plain :
      (a : ℕ) (pieces : List Text)
      → (a == sep) ≡ false
      → All Plain pieces
      → All Plain (add_to_head a pieces)
  unfolding contains_byte
  add_to_head-Plain a [] h k = (ground arith, tt)
  add_to_head-Plain a (piece ∷ pieces) h k = (ground arith, k.1)

  -- No piece holds a separator.
  pub split-Plain : (s : Text) → All Plain (split sep s)
  unfolding split contains_byte
  split-Plain [] = (refl, tt)
  split-Plain (a ∷ s) = elim (Bool-cases (a == sep)) [
    | inl cut ↦ rw cut (refl, split-Plain s)
    | inr more ↦ rw more (add_to_head-Plain a (split sep s) more (split-Plain s))
  ]
