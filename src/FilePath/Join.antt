-- ===== src/FilePath/Join.antt =====
-- Names behind an absolute path.
use mathlib.Core.List.{
  reverse-append, reverse-reverse, reverse-cons, foldl-append, append_assoc, append-nil,
}
use nomad_driver_steamcmd.Base.{
  ℕ, Text, nat_eq, nat_beq_iff, text_eq, text_beq, text_beq_iff, Bool-cases, ◌==◌, split, join_with,
  All, Bool, true, List, [], ◌∷◌, ◌++◌, foldl, reverse, ◌≡◌, refl, sym, ap, ◌∙◌, arith, inl, inr,
}
use nomad_driver_steamcmd.FilePath.{
  slash, dot, dot_dot, is_abs, keep, clean_pieces, render, clean, join, elements,
}
use nomad_driver_steamcmd.FilePath.Elements.{split-join_with}
use nomad_driver_steamcmd.FilePath.Clean.{
  IsName, All-IsName-Plain, elements-clean, clean_pieces-IsName, is_abs-clean,
}

split-ne-nil : (sep : ℕ) (s : Text) → (p : Text) × (ps : List Text) × (split sep s ≡ p ∷ ps)
unfolding split
split-ne-nil sep [] = ([], [], refl)
split-ne-nil sep (a ∷ s) =
    let (p, ps, e) = split-ne-nil sep s in
    elim (Bool-cases (a == sep)) [
      | inl cut ↦ ([], split sep s, rw cut)
      | inr more ↦ (a ∷ p, ps, rw (more, e))
    ]

split-split : (sep : ℕ) (s t : Text) → split sep (s ++ (sep ∷ t)) ≡ split sep s ++ split sep t
unfolding split
split-split sep [] t = ground (arith, nat_beq_iff sep sep)
split-split sep (a ∷ s) t =
    let (p, ps, e) = split-ne-nil sep s in
    elim (Bool-cases (a == sep)) [
      | inl cut ↦ rw cut (rw (split-split sep s t))
      | inr more ↦ rw more (rw (split-split sep s t, e))
    ]

keep-IsName :
    (rooted : Bool) (kept : List Text) (name : Text)
    → IsName name
    → keep rooted kept name ≡ name ∷ kept
unfolding keep
keep-IsName rooted kept name h = ground (
  arith,
  text_beq_iff name [],
  text_beq_iff name dot,
  text_beq_iff name dot_dot,
  h.not_empty,
  h.not_dot,
  h.not_dot_dot,
)

foldl-keep :
    (rooted : Bool) (names kept : List Text)
    → All IsName names
    → foldl (keep rooted) kept names ≡ reverse names ++ kept
foldl-keep rooted [] kept h = refl
foldl-keep rooted (name ∷ names) kept h =
    ap (λ k. foldl (keep rooted) k names) (keep-IsName rooted kept name h.0)
    ∙ foldl-keep rooted names (name ∷ kept) h.1
    ∙ sym (append_assoc (reverse names) (name ∷ []) kept)
    ∙ ap (λ r. r ++ kept) (sym (reverse-cons name names))

is_abs-append : (dir s : Text) → is_abs dir ≡ true → is_abs (dir ++ s) ≡ true
unfolding is_abs
is_abs-append [] s h = cc
is_abs-append (a ∷ dir) s h = h

clean_pieces-names :
    (dir name : Text) (names : List Text)
    → is_abs dir ≡ true
    → All IsName (name ∷ names)
    → clean_pieces (dir ++ (slash ∷ join_with slash (name ∷ names)))
      ≡ clean_pieces dir ++ (name ∷ names)
unfolding clean_pieces
clean_pieces-names dir name names rooted h =
    let kept = foldl (keep true) [] (split slash dir) in
    rw (is_abs-append dir (slash ∷ join_with slash (name ∷ names)) rooted, rooted)
      (ap (λ ps. reverse (foldl (keep true) [] ps))
          (split-split slash dir _
            ∙ ap (λ ps. split slash dir ++ ps)
                (split-join_with slash name names (All-IsName-Plain (name ∷ names) h)))
        ∙ ap reverse (
            foldl-append (keep true) [] (split slash dir) (name ∷ names)
            ∙ foldl-keep true (name ∷ names) kept h)
        ∙ reverse-append (reverse (name ∷ names)) kept
        ∙ ap (λ ns. reverse kept ++ ns) (reverse-reverse (name ∷ names)))

-- Names joined to an absolute directory are its further elements.
pub elements-join :
    (dir name : Text) (names : List Text)
    → is_abs dir ≡ true
    → All IsName (name ∷ names)
    → elements (join (dir ∷ name ∷ names)) ≡ clean_pieces dir ++ (name ∷ names)
unfolding join join_with text_beq
elements-join [] name names rooted h = absurd (unfold is_abs in cc)
elements-join (a ∷ dir) name names rooted h =
    elements-clean (a ∷ (dir ++ (slash ∷ join_with slash (name ∷ names)))) (unfold is_abs in rooted)
    ∙ clean_pieces-names (a ∷ dir) name names rooted h

-- The pieces of a rendered path are those that it was rendered from.
clean_pieces-render :
    (names : List Text) → All IsName names → clean_pieces (render true names) ≡ names
unfolding clean_pieces render split is_abs join_with keep text_beq
clean_pieces-render [] h = refl
clean_pieces-render (name ∷ names) h =
    ap (λ ps. reverse (foldl (keep true) [] ps))
      (split-join_with slash name names (All-IsName-Plain (name ∷ names) h))
    ∙ ap reverse (foldl-keep true (name ∷ names) [] h ∙ append-nil (reverse (name ∷ names)))
    ∙ reverse-reverse (name ∷ names)

-- `Clean` changes nothing more of a path that it has cleaned.
pub clean_pieces-clean : (p : Text) → is_abs p ≡ true → clean_pieces (clean p) ≡ clean_pieces p
unfolding clean
clean_pieces-clean p rooted =
    rw rooted (clean_pieces-render (clean_pieces p) (clean_pieces-IsName p rooted))

-- A path joined to an absolute directory is absolute.
pub is_abs-join : (dir p : Text) → is_abs dir ≡ true → is_abs (join (dir ∷ p ∷ [])) ≡ true
unfolding join join_with text_beq
is_abs-join [] p rooted = absurd (unfold is_abs in cc)
is_abs-join (a ∷ dir) p rooted = is_abs-clean (a ∷ (dir ++ (slash ∷ p))) (unfold is_abs in rooted)
