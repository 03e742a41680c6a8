-- ===== src/Steamcmd/Lines/Laws.antt =====
-- Each line of the output is seen, also behind an overlong one.
use nomad_driver_steamcmd.Base.{
  ℕ, zero, suc, ◌+◌, ◌≤◌, ◌<◌, ltb, Text, nat_eq, text_eq, text_beq_iff, contains_byte, length,
  take, drop, Bool-cases, true, false, some, [], ◌∷◌, ◌++◌, if◌then◌else◌, ◌≡◌, refl, arith, inl,
  inr,
}
use nomad_driver_steamcmd.Steamcmd.Lines.{
  newline, carriage_return, read_slice, drop_return, read_line, skip_line,
}

pub read_slice-short :
    (size : ℕ) (l rest : Text)
    → contains_byte l newline ≡ false
    → length l < size
    → read_slice size (l ++ (newline ∷ rest)) ≡ (l, true, rest)
unfolding read_slice contains_byte
read_slice-short zero l rest h k = absurd (omega arith)
read_slice-short (suc size) [] rest h k = refl
read_slice-short (suc size) (a ∷ l) rest h k = ground (arith, read_slice-short size l rest)

pub read_slice-long :
    (size : ℕ) (l rest : Text)
    → contains_byte l newline ≡ false
    → size ≤ length l
    → read_slice size (l ++ rest) ≡ (take size l, false, drop size l ++ rest)
unfolding read_slice contains_byte
read_slice-long zero l rest h k = refl
read_slice-long (suc size) [] rest h k = absurd (omega arith)
read_slice-long (suc size) (a ∷ l) rest h k = ground (arith, read_slice-long size l rest)

abbrev pub PlainLine : Text → Type 0
PlainLine l = contains_byte l newline ≡ false

drop-PlainLine : (n : ℕ) (l : Text) → PlainLine l → PlainLine (drop n l)
unfolding contains_byte
drop-PlainLine zero l h = h
drop-PlainLine (suc n) [] h = h
drop-PlainLine (suc n) (a ∷ l) h = drop-PlainLine n l (ground arith)

pub length-take-drop :
    (n : ℕ) (l : Text) → n ≤ length l → (length (take n l) ≡ n) × (length (drop n l) + n ≡ length l)
length-take-drop zero l h = (refl, omega arith)
length-take-drop (suc n) [] h = absurd (omega arith)
length-take-drop (suc n) (a ∷ l) h =
    let ih = length-take-drop n l (omega arith) in (omega arith, omega arith)

-- What is kept of a line: it, or its first buffer, without a carriage return at the end.
unfoldable pub first_part : ℕ → Text → Text
first_part size l = (drop_return (if ltb (length l) size then l else take size l)).0

pub read_line-short :
    (size : ℕ) (l rest : Text)
    → PlainLine l
    → length l < size
    → read_line size (l ++ (newline ∷ rest))
      ≡ some (record { line = first_part size l; is_prefix = false; rest = rest })
unfolding first_part read_line
read_line-short size l rest h k = rw (read_slice-short size l rest h k, read_line) (ground arith)

abbrev pub left_over : ℕ → Text → Text
left_over size l =
    if (drop_return (take size l)).1 then carriage_return ∷ drop size l else drop size l

left_over-append :
    (size : ℕ) (l rest : Text)
    → left_over size l ++ rest ≡ (
        if (drop_return (take size l)).1
        then carriage_return ∷ (drop size l ++ rest)
        else drop size l ++ rest)
left_over-append size l rest = elim (Bool-cases (drop_return (take size l)).1) [
  | inl c ↦ rw c
  | inr c ↦ rw c
]

pub read_line-long :
    (size : ℕ) (l rest : Text)
    → 1 < size
    → PlainLine l
    → size ≤ length l
    → read_line size (l ++ (newline ∷ rest))
      ≡ some (record {
        line = first_part size l;
        is_prefix = true;
        rest = left_over size l ++ (newline ∷ rest);
      })
unfolding first_part read_line
read_line-long size l rest big h k =
    rw (read_slice-long size l (newline ∷ rest) h k, read_line)
      (rw (left_over-append size l (newline ∷ rest))
        (ground (arith, length-take-drop size l k, text_beq_iff (take size l) [])))

pub left_over-PlainLine : (size : ℕ) (l : Text) → PlainLine l → PlainLine (left_over size l)
unfolding contains_byte
left_over-PlainLine size l h = ground (arith, drop-PlainLine size l h)

pub length-left_over :
    (size : ℕ) (l : Text) → 1 < size → size ≤ length l → length (left_over size l) < length l
length-left_over size l big k = ground (arith, length-take-drop size l k)

-- The rest of a line of any length is skipped, and no more.
pub skip_line-line :
    (fuel size : ℕ) (l rest : Text)
    → 1 < size
    → PlainLine l
    → length l < fuel
    → skip_line fuel size (l ++ (newline ∷ rest)) ≡ rest
unfolding skip_line
skip_line-line zero size l rest big h k = absurd (omega arith)
skip_line-line (suc fuel) size l rest big h k = elim (Bool-cases (ltb (length l) size)) [
  | inl short ↦ rw (read_line-short size l rest h (ground arith), skip_line)
  | inr long ↦
      rw (read_line-long size l rest big h (ground arith), skip_line)
        (skip_line-line fuel size (left_over size l) rest big (left_over-PlainLine size l h)
          (omega (arith, length-left_over size l big (ground arith))))
]
