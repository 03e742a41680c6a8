-- ===== src/Steamcmd/Lines/Fuel.antt =====
-- The reader's loops read a byte or more in each round, so that more fuel changes nothing.
use nomad_driver_steamcmd.Base.{
  ℕ, zero, suc, ◌+◌, ◌≤◌, ◌<◌, ltb, Text, nat_eq, length, Bool, Bool-cases, Option-cases, some, [],
  ◌∷◌, ◌++◌, if◌then◌else◌, ◌≡◌, arith, inl, inr, ap, ◌∙◌, length-append,
}
use nomad_driver_steamcmd.Steamcmd.Lines.{
  newline, read_slice, ReadLine, read_line, skip_line, after_line, read_lines_from, read_lines,
}
use nomad_driver_steamcmd.Steamcmd.Lines.Laws.{
  PlainLine, first_part, read_line-short, read_line-long, left_over, left_over-PlainLine,
  length-left_over, skip_line-line,
}

abbrev pub one_if : Bool → ℕ
one_if b = if b then 1 else 0

pub read_slice-length :
    (size : ℕ) (s : Text)
    → let r = read_slice size s in length r.0 + one_if r.1 + length r.2 ≡ length s
unfolding read_slice
read_slice-length zero s = omega arith
read_slice-length (suc size) [] = omega arith
read_slice-length (suc size) (a ∷ s) = ground (arith, read_slice-length size s)

read_slice-reads :
    (size a : ℕ) (s : Text) → 0 < size → let r = read_slice size (a ∷ s) in length r.2 ≤ length s
unfolding read_slice
read_slice-reads zero a s h = absurd (omega arith)
read_slice-reads (suc size) a s h = ground (arith, read_slice-length size s)

-- A round reads a byte or more.
read_line-length :
    (size : ℕ) (s : Text) {r : ReadLine}
    → 1 < size
    → read_line size s ≡ some r
    → length r.rest < length s
unfolding read_line read_slice
read_line-length zero [] big h = absurd (omega arith)
read_line-length (suc size) [] big h = cc
read_line-length size (a ∷ s) big h =
    ground (arith, read_slice-length size (a ∷ s), read_slice-reads size a s)

skip_line-length : (fuel size : ℕ) (s : Text) → 1 < size → length (skip_line fuel size s) ≤ length s
unfolding skip_line
skip_line-length zero size s big = omega arith
skip_line-length (suc fuel) size s big = elim (Option-cases (read_line size s)) [
  | inl end ↦ rw (end, skip_line) (omega arith)
  | inr (r, e) ↦
      rw (e, skip_line)
        (ground (arith, read_line-length size s big e, skip_line-length fuel size r.rest big))
]

skip_line-fuel :
    (f g size : ℕ) (s : Text)
    → 1 < size
    → length s < f
    → length s < g
    → skip_line f size s ≡ skip_line g size s
unfolding skip_line
skip_line-fuel zero g size s big h k = absurd (omega arith)
skip_line-fuel (suc f) zero size s big h k = absurd (omega arith)
skip_line-fuel (suc f) (suc g) size s big h k = elim (Option-cases (read_line size s)) [
  | inl end ↦ rw (end, skip_line)
  | inr (r, e) ↦
      rw (e, skip_line)
        (ground (arith, read_line-length size s big e, skip_line-fuel f g size r.rest big))
]

after_line-length :
    (fuel size : ℕ) (r : ReadLine) → 1 < size → length (after_line fuel size r) ≤ length r.rest
unfolding after_line
after_line-length fuel size r big = ground (arith, skip_line-length fuel size r.rest big)

after_line-fuel :
    (f g size : ℕ) (r : ReadLine)
    → 1 < size
    → length r.rest < f
    → length r.rest < g
    → after_line f size r ≡ after_line g size r
unfolding after_line
after_line-fuel f g size r big h k = ground (arith, skip_line-fuel f g size r.rest big)

read_lines_from-fuel :
    (f g size : ℕ) (s : Text)
    → 1 < size
    → length s < f
    → length s < g
    → read_lines_from f size s ≡ read_lines_from g size s
unfolding read_lines_from
read_lines_from-fuel zero g size s big h k = absurd (omega arith)
read_lines_from-fuel (suc f) zero size s big h k = absurd (omega arith)
read_lines_from-fuel (suc f) (suc g) size s big h k = elim (Option-cases (read_line size s)) [
  | inl end ↦ rw (end, read_lines_from)
  | inr (r, e) ↦
      let shorter = read_line-length size s big e in
      let small = after_line-length f size r big in
      rw (e, read_lines_from)
        (rw (← after_line-fuel f g size r big (omega arith) (omega arith)) (
          ap (λ lines. r.line ∷ lines)
            (read_lines_from-fuel f g size (after_line f size r) big (omega arith) (omega arith))))
]

read_lines_from-line :
    (fuel size : ℕ) (l rest : Text)
    → 1 < size
    → PlainLine l
    → length l < fuel
    → read_lines_from (suc fuel) size (l ++ (newline ∷ rest))
      ≡ first_part size l ∷ read_lines_from fuel size rest
unfolding read_lines_from after_line
read_lines_from-line fuel size l rest big h k = elim (Bool-cases (ltb (length l) size)) [
  | inl short ↦ rw (read_line-short size l rest h (ground arith), read_lines_from)
  | inr long ↦
      let wide : size ≤ length l = ground arith in
      rw (read_line-long size l rest big h wide, read_lines_from)
        (rw (
          skip_line-line fuel size (left_over size l) rest big (left_over-PlainLine size l h)
            (omega (arith, length-left_over size l big wide))))
]

-- The loop sees each line of the output, whole if it fits the buffer and else its first buffer, and
-- goes on with the next line.
pub read_lines-line :
    (size : ℕ) (l rest : Text)
    → 1 < size
    → PlainLine l
    → read_lines size (l ++ (newline ∷ rest)) ≡ first_part size l ∷ read_lines size rest
unfolding read_lines
read_lines-line size l rest big h =
    let total = length-append l (newline ∷ rest) in
    read_lines_from-line (length (l ++ (newline ∷ rest))) size l rest big h (omega arith)
    ∙ ap (λ lines. first_part size l ∷ lines)
        (read_lines_from-fuel (length (l ++ (newline ∷ rest))) (suc (length rest)) size rest big
          (omega arith) (omega arith))
