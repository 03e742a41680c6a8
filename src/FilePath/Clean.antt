-- ===== src/FilePath/Clean.antt =====
-- What `clean` leaves of an absolute path: elements that are names.
use mathlib.Core.List.{reverse-cons}
use nomad_driver_steamcmd.Base.{
  Text, nat_eq, text_eq, text_beq, text_beq_iff, Bool-cases, ◌==◌, join_with, contains_byte, All,
  All-append, true, false, ◌||◌, List, [], ◌∷◌, foldl, reverse, ◌≡◌, ◌≢◌, refl, inl, inr, arith,
}
use nomad_driver_steamcmd.FilePath.{
  slash, dot, dot_dot, is_abs, back_up, keep, clean_pieces, render, clean, elements,
}
use nomad_driver_steamcmd.FilePath.Elements.{Plain, split-Plain, split-join_with}

-- A name of a directory entry: not empty, with no slash, and neither "." nor "..".
pub record IsName (piece : Text) : Type 0 where
  pub is_plain : contains_byte piece slash ≡ false
  pub not_empty : piece ≢ []
  pub not_dot : piece ≢ dot
  pub not_dot_dot : piece ≢ dot_dot

back_up-IsName : (kept : List Text) → All IsName kept → All IsName (back_up true kept)
unfolding back_up
back_up-IsName [] h = tt
back_up-IsName (top ∷ kept) (top_name, h) = elim (Bool-cases (top == dot_dot)) [
  | inl up ↦ absurd (top_name.not_dot_dot ((text_beq_iff top dot_dot).0 up))
  | inr down ↦ rw down h
]

keep-IsName :
    (kept : List Text) (piece : Text)
    → Plain slash piece
    → All IsName kept
    → All IsName (keep true kept piece)
unfolding keep
keep-IsName kept piece p h = elim (Bool-cases (piece == [] || piece == dot)) [
  | inl gone ↦ rw gone h
  | inr stays ↦ rw stays (elim (Bool-cases (piece == dot_dot)) [
    | inl up ↦ rw up (back_up-IsName kept h)
    | inr name ↦ rw name (
      record {
        is_plain = p;
        not_empty = ground (arith, text_beq_iff piece []);
        not_dot = ground (arith, text_beq_iff piece dot);
        not_dot_dot = ground (arith, text_beq_iff piece dot_dot);
      },
      h,
    )
  ])
]

foldl-keep-IsName :
    (pieces kept : List Text)
    → All (Plain slash) pieces
    → All IsName kept
    → All IsName (foldl (keep true) kept pieces)
foldl-keep-IsName [] kept p h = h
foldl-keep-IsName (piece ∷ pieces) kept p h =
    foldl-keep-IsName pieces (keep true kept piece) p.1 (keep-IsName kept piece p.0 h)

All-reverse {ℓ κ} : {A : Type ℓ} (P : A → Type κ) (xs : List A) → All P xs → All P (reverse xs)
All-reverse P [] h = tt
All-reverse P (x ∷ xs) h =
    rw reverse-cons (All-append P (reverse xs) (x ∷ []) (All-reverse P xs h.1) (h.0, tt))

-- The pieces of a cleaned absolute path are names.
pub clean_pieces-IsName : (p : Text) → is_abs p ≡ true → All IsName (clean_pieces p)
unfolding clean_pieces
clean_pieces-IsName p h =
    rw h (All-reverse IsName _ (foldl-keep-IsName _ [] (split-Plain slash p) tt))

pub All-IsName-Plain : (pieces : List Text) → All IsName pieces → All (Plain slash) pieces
All-IsName-Plain [] h = tt
All-IsName-Plain (piece ∷ pieces) h = (h.0.is_plain, All-IsName-Plain pieces h.1)

join_with-ne-nil :
    (piece : Text) (pieces : List Text) → piece ≢ [] → join_with slash (piece ∷ pieces) ≢ []
unfolding join_with
join_with-ne-nil piece [] h e = h e
join_with-ne-nil [] (next ∷ pieces) h e = h refl
join_with-ne-nil (a ∷ piece) (next ∷ pieces) h e = cc

-- A rendered path has the elements that it was rendered from.
pub elements-render :
    (pieces : List Text) → All IsName pieces → elements (render true pieces) ≡ pieces
unfolding elements render join_with text_beq
elements-render [] h = refl
elements-render (piece ∷ pieces) h = ground (
  arith,
  text_beq_iff (join_with slash (piece ∷ pieces)) [],
  join_with-ne-nil piece pieces h.0.not_empty,
  split-join_with slash piece pieces (All-IsName-Plain (piece ∷ pieces) h),
)

pub is_abs-clean : (p : Text) → is_abs p ≡ true → is_abs (clean p) ≡ true
unfolding clean render is_abs
is_abs-clean [] h = cc
is_abs-clean (a ∷ p) h = rw h

pub elements-clean : (p : Text) → is_abs p ≡ true → elements (clean p) ≡ clean_pieces p
unfolding clean
elements-clean p h = rw h (elements-render (clean_pieces p) (clean_pieces-IsName p h))
