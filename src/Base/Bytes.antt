-- ===== src/Base/Bytes.antt =====
-- Go strings and byte slices: lists of byte values. `bytes` writes an ASCII literal.
use Prim.Native.Nat.{ℕ}
use Prim.Native.Char.{code}
use Prim.Native.String.{String}
use mathlib.Core.Path.{◌≡◌, refl}
use mathlib.Core.Logic.{◌↔◌}
use mathlib.Core.Bool.{Bool, true, false, ◌&&◌, ◌||◌}
use mathlib.Core.List.{List, [], ◌∷◌, ◌++◌, reverse}
use native.Mathlib.Omega.{arith}
use nomad_driver_steamcmd.Base.Tests.{Eq, ◌==◌, nat_eq, if◌then◌else◌}

abbrev pub Text : Type 0
Text = List ℕ

abbrev pub bytes : String → Text
bytes String.[] = []
bytes (String.◌∷◌ c s) = code c ∷ bytes s

unfoldable pub text_beq : Text → Text → Bool
text_beq [] [] = true
text_beq (a ∷ s) (b ∷ t) = a == b && text_beq s t
text_beq _ _ = false

pub text_beq_iff : (s t : Text) → (text_beq s t ≡ true) ↔ (s ≡ t)
unfolding text_beq
text_beq_iff [] [] = (λ _. refl, λ _. refl)
text_beq_iff [] (b ∷ t) = (λ h. cc, λ h. cc)
text_beq_iff (a ∷ s) [] = (λ h. cc, λ h. cc)
text_beq_iff (a ∷ s) (b ∷ t) =
    (λ h. ground (arith, text_beq_iff s t), λ h. ground (arith, text_beq_iff s t))

instance abbrev pub text_eq : Eq Text
text_eq = record { beq = text_beq; beq_iff = text_beq_iff }

-- `strings.HasPrefix` and `bytes.HasPrefix`.
unfoldable pub has_prefix : Text → Text → Bool
has_prefix s [] = true
has_prefix [] (b ∷ t) = false
has_prefix (a ∷ s) (b ∷ t) = a == b && has_prefix s t

-- `strings.Contains` of a one-byte text.
unfoldable pub contains_byte : Text → ℕ → Bool
contains_byte [] b = false
contains_byte (a ∷ s) b = a == b || contains_byte s b

-- The pieces of a text between the bytes `sep`: `strings.Split`.
abbrev pub add_to_head : ℕ → List Text → List Text
add_to_head a [] = (a ∷ []) ∷ []
add_to_head a (piece ∷ pieces) = (a ∷ piece) ∷ pieces

unfoldable pub split : ℕ → Text → List Text
split sep [] = [] ∷ []
split sep (a ∷ s) = let rest = split sep s in if a == sep then [] ∷ rest else add_to_head a rest

-- `strings.Join` with a one-byte separator.
unfoldable pub join_with : ℕ → List Text → Text
join_with sep [] = []
join_with sep (piece ∷ []) = piece
join_with sep (piece ∷ next ∷ pieces) = piece ++ (sep ∷ join_with sep (next ∷ pieces))

-- ASCII white space, which is what `strings.TrimSpace` cuts from an ASCII text.
abbrev pub is_space : ℕ → Bool
is_space b = b == b' ' || b == 9 || b == 10 || b == 11 || b == 12 || b == 13

unfoldable pub trim_left : (ℕ → Bool) → Text → Text
trim_left cut [] = []
trim_left cut (a ∷ s) = let rest = trim_left cut s in if cut a then rest else a ∷ s

unfoldable pub trim_space : Text → Text
unfolding trim_left
trim_space s = reverse (trim_left is_space (reverse (trim_left is_space s)))
