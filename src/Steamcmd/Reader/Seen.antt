-- ===== src/Steamcmd/Reader/Seen.antt =====
-- The reading loop sees every line that steamcmd completes: whole, if it fits the buffer, and as
-- some text, if it does not; and it goes on behind an overlong line.
use mathlib.Core.List.{append_assoc, append-nil}
use nomad_driver_steamcmd.Base.{
  ℕ, zero, suc, ◌≤◌, ◌<◌, ltb, Text, nat_eq, text_eq, length, All, Bool-cases, true, false, none,
  some, List, [], ◌∷◌, ◌++◌, map, ◌≡◌, refl, arith, inl, inr, ap, ap₂, sym, ◌∙◌, length-append,
  some-eq,
}
use nomad_driver_steamcmd.Steamcmd.Lines.{newline, drop_return, ReadLine, read_line, after_line}
use nomad_driver_steamcmd.Steamcmd.Lines.Laws.{
  PlainLine, first_part, read_line-short, read_line-long, left_over, left_over-PlainLine,
  length-left_over, skip_line-line,
}
use nomad_driver_steamcmd.Steamcmd.Reader.{
  Reader, after_read, seen_line, seen_from, seen_lines, new_reader,
}
use nomad_driver_steamcmd.Steamcmd.Reader.Slices.{view}
use nomad_driver_steamcmd.Steamcmd.Reader.Refines.{Reads-cases, reader_line-Reads, after_read-view}

-- Lines, each with its newline.
abbrev pub unlines : List Text → Text
unlines [] = []
unlines (l ∷ ls) = l ++ (newline ∷ unlines ls)

-- A line without a carriage return at its end.
abbrev pub chomp : Text → Text
chomp l = (drop_return l).0

-- The second list shows the lines of the first, those that fit the buffer as they are.
abbrev pub Shows : ℕ → List Text → List Text → Type 0
Shows size [] [] = Unit
Shows size [] (x ∷ xs) = ⊥
Shows size (l ∷ ls) [] = ⊥
Shows size (l ∷ ls) (x ∷ xs) = (length l < size → x ≡ chomp l) × Shows size ls xs

unlines-append :
    (ls : List Text) (tail : Text) (l : Text)
    → unlines (l ∷ ls) ++ tail ≡ l ++ (newline ∷ (unlines ls ++ tail))
unlines-append ls tail l = append_assoc l (newline ∷ unlines ls) tail

-- What reading a whole line gives by the view: the line if it is short, and where the next begins.
line-after :
    (fuel size : ℕ) (l rest : Text)
    → 1 < size
    → PlainLine l
    → length l < fuel
    → (v : ReadLine) × (read_line size (l ++ (newline ∷ rest)) ≡ some v)
      × (after_line fuel size v ≡ rest)
      × (length l < size → (v.is_prefix ≡ false) × (v.line ≡ chomp l))
unfolding after_line first_part
line-after fuel size l rest big plain k = elim (Bool-cases (ltb (length l) size)) [
  | inl short ↦ (
    record { line = first_part size l; is_prefix = false; rest = rest },
    read_line-short size l rest plain (ground arith),
    refl,
    λ _. (refl, rw (short, first_part)),
  )
  | inr long ↦
      let wide : size ≤ length l = ground arith in
      (
        record {
          line = first_part size l;
          is_prefix = true;
          rest = left_over size l ++ (newline ∷ rest);
        },
        read_line-long size l rest big plain wide,
        skip_line-line fuel size (left_over size l) rest big (left_over-PlainLine size l plain)
            (omega (arith, length-left_over size l big wide)),
        λ h. absurd (omega arith),
      )
]

read_line-nil : (size : ℕ) → 0 < size → read_line size [] ≡ none
unfolding read_line
read_line-nil zero h = absurd (omega arith)
read_line-nil (suc size) h = refl

module _ (size : ℕ) (amount : ℕ → ℕ) (big : 1 < size) where
  -- One round of the loop, at a whole line.
  seen_from-line :
      (fuel : ℕ) (rd : Reader) (l rest : Text)
      → length rd.unread ≤ size
      → view rd ≡ l ++ (newline ∷ rest)
      → PlainLine l
      → length l < fuel
      → (x : Text) × (rd' : Reader) × (seen_from size amount (suc fuel) rd
          ≡ x ∷ seen_from size amount fuel rd')
        × (view rd' ≡ rest)
        × (length rd'.unread ≤ size)
        × (length l < size → x ≡ chomp l)
  unfolding seen_from seen_line
  seen_from-line fuel rd l rest fits e plain k =
      let (v, read, after, short) = line-after fuel size l rest big plain k in
      elim (Reads-cases size _ _ (reader_line-Reads size amount big rd fits)) [
        | inl (_, end) ↦ absurd (cc (end, read, ap (read_line size) e))
        | inr (r, v', er, ev, agrees) ↦
            let same : v' ≡ v = some-eq (sym ev ∙ ap (read_line size) e ∙ read) in
            let (viewed, fits') = after_read-view size amount big fuel r v' agrees in
            (
              seen_line r (after_read size amount fuel r),
              after_read size amount fuel r,
              ground arith,
              viewed ∙ ap (after_line fuel size) same ∙ after,
              fits',
              λ h. ground (arith, agrees.same_kind, agrees.same_line, short h, same),
            )
      ]

  seen_from-unlines :
      (ls : List Text) (tail : Text) (fuel : ℕ) (rd : Reader)
      → length rd.unread ≤ size
      → view rd ≡ unlines ls ++ tail
      → All PlainLine ls
      → length (unlines ls) < fuel
      → (xs : List Text) × (rd' : Reader) × (more : ℕ) × (seen_from size amount fuel rd
          ≡ xs ++ seen_from size amount more rd')
        × (view rd' ≡ tail)
        × (length rd'.unread ≤ size)
        × Shows size ls xs
  seen_from-unlines [] tail fuel rd fits e plain k = ([], rd, fuel, refl, e, fits, tt)
  seen_from-unlines (l ∷ ls) tail zero rd fits e plain k = absurd (omega arith)
  seen_from-unlines (l ∷ ls) tail (suc fuel) rd fits e plain k =
      let total = length-append l (newline ∷ unlines ls) in
      let (x, rd', seen, viewed, fits', short) =
        seen_from-line fuel rd l (unlines ls ++ tail) fits (e ∙ unlines-append ls tail l) plain.0
          (omega arith) in
      let (xs, rd'', more, seen', viewed', fits'', shows) =
        seen_from-unlines ls tail fuel rd' fits' viewed plain.1 (omega arith) in
      (x ∷ xs, rd'', more, seen ∙ ap (λ s. x ∷ s) seen', viewed', fits'', (short, shows))

  -- Whatever the pipe's reads deliver, the loop sees one text for each line that steamcmd completes, in
  -- their order: the line itself, without its carriage return, if it is shorter than the buffer, and any
  -- text if it is not.
  pub seen_lines-unlines :
      (ls : List Text) (tail : Text)
      → All PlainLine ls
      → (xs more : List Text) × (seen_lines size amount (unlines ls ++ tail) ≡ xs ++ more)
        × Shows size ls xs
  unfolding seen_lines
  seen_lines-unlines ls tail plain =
      let (xs, rd, more, seen, viewed, fits, shows) =
        seen_from-unlines ls tail (suc (length (unlines ls ++ tail)))
          (new_reader size amount (unlines ls ++ tail)) (omega arith) refl plain
          (omega (arith, length-append (unlines ls) tail)) in
      (xs, seen_from size amount more rd, seen, shows)

  seen_from-end :
      (fuel : ℕ) (rd : Reader)
      → length rd.unread ≤ size
      → view rd ≡ []
      → seen_from size amount fuel rd ≡ []
  unfolding seen_from
  seen_from-end zero rd fits e = refl
  seen_from-end (suc fuel) rd fits e =
      elim (Reads-cases size _ _ (reader_line-Reads size amount big rd fits)) [
        | inl (end, _) ↦ ground arith
        | inr (r, v, _, ev, _) ↦
            absurd (cc (sym ev ∙ ap (read_line size) e, read_line-nil size (omega arith)))
      ]

  Shows-chomp :
      (ls xs : List Text) → All (λ l. length l < size) ls → Shows size ls xs → xs ≡ map chomp ls
  Shows-chomp [] [] h shows = refl
  Shows-chomp [] (x ∷ xs) h shows = absurd shows
  Shows-chomp (l ∷ ls) [] h shows = absurd shows
  Shows-chomp (l ∷ ls) (x ∷ xs) h shows =
      ap₂ (λ y ys. y ∷ ys) (shows.0 h.0) (Shows-chomp ls xs h.1 shows.1)

  -- Of an output of whole lines that fit the buffer, the loop sees just these lines.
  pub seen_lines-chomp :
      (ls : List Text)
      → All PlainLine ls
      → All (λ l. length l < size) ls
      → seen_lines size amount (unlines ls) ≡ map chomp ls
  unfolding seen_lines
  seen_lines-chomp ls plain short =
      let (xs, rd, more, seen, viewed, fits, shows) =
        seen_from-unlines ls [] (suc (length (unlines ls))) (new_reader size amount (unlines ls))
          (omega arith) (sym (append-nil (unlines ls))) plain (omega arith) in
      seen
      ∙ ap (λ rest. xs ++ rest) (seen_from-end more rd fits viewed)
      ∙ append-nil xs
      ∙ Shows-chomp ls xs short shows
