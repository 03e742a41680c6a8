-- ===== src/Steamcmd/Reader/Slices.antt =====
-- `ReadSlice` does what its abstract view says.
use mathlib.Core.List.{append-nil, append_assoc}
use nomad_driver_steamcmd.Base.{
  ℕ, zero, suc, ◌+◌, ◌-◌, ◌≤◌, ◌<◌, leb, Text, nat_eq, text_eq, ◌==◌, contains_byte, length, take,
  drop, Bool, Bool-cases, true, false, Option-cases, List-cases, none, some, [], ◌∷◌, ◌++◌, ◌≡◌,
  refl, arith, inl, inr, ap, ap₂, subst, sym, ◌∙◌, length-append,
}
use nomad_driver_steamcmd.Steamcmd.Lines.{newline, read_slice}
use nomad_driver_steamcmd.Steamcmd.Lines.Laws.{PlainLine, read_slice-short, read_slice-long}
use nomad_driver_steamcmd.Steamcmd.Reader.{Reader, at_most, fill, cut_line, slice_loop}

-- The bytes that the loop has still to read.
abbrev pub view : Reader → Text
view rd = rd.unread ++ rd.input

read_slice-end :
    (size : ℕ) (l : Text) → PlainLine l → length l < size → read_slice size l ≡ (l, false, [])
unfolding read_slice contains_byte
read_slice-end zero l h k = absurd (omega arith)
read_slice-end (suc size) [] h k = refl
read_slice-end (suc size) (a ∷ l) h k = ground (arith, read_slice-end size l)

take_all : (n : ℕ) (l : Text) → length l ≤ n → take n l ≡ l
take_all zero [] h = refl
take_all zero (a ∷ l) h = absurd (omega arith)
take_all (suc n) [] h = refl
take_all (suc n) (a ∷ l) h = ap (λ s. a ∷ s) (take_all n l (omega arith))

drop_all : (n : ℕ) (l : Text) → length l ≤ n → drop n l ≡ []
drop_all zero [] h = refl
drop_all zero (a ∷ l) h = absurd (omega arith)
drop_all (suc n) [] h = refl
drop_all (suc n) (a ∷ l) h = drop_all n l (omega arith)

pub take-append-drop : (n : ℕ) (l : Text) → take n l ++ drop n l ≡ l
take-append-drop zero l = refl
take-append-drop (suc n) [] = refl
take-append-drop (suc n) (a ∷ l) = ap (λ s. a ∷ s) (take-append-drop n l)

length-take-le : (n : ℕ) (l : Text) → length (take n l) ≤ n
length-take-le zero l = omega arith
length-take-le (suc n) [] = omega arith
length-take-le (suc n) (a ∷ l) = omega (arith, length-take-le n l)

cut_line-none : (s : Text) → cut_line s ≡ none → PlainLine s
unfolding cut_line contains_byte
cut_line-none [] h = refl
cut_line-none (a ∷ s) h = ground (arith, cut_line-none s)

cut_line-some :
    (s : Text) {l rest : Text}
    → cut_line s ≡ some (l, rest)
    → (s ≡ l ++ (newline ∷ rest)) × PlainLine l
unfolding cut_line contains_byte
cut_line-some [] h = cc
cut_line-some (a ∷ s) h = elim (Bool-cases (a == newline)) [
  | inl here ↦ (ground arith, ground arith)
  | inr later ↦ elim (Option-cases (cut_line s)) [
    | inl nowhere ↦ absurd (ground arith)
    | inr ((front, behind), e) ↦ let ih = cut_line-some s e in (ground arith, ground arith)
  ]
]

length-take-cons :
    (n a : ℕ) (s : Text) → (0 < n → 0 < length (take n (a ∷ s))) × (length (take n (a ∷ s)) ≤ n)
length-take-cons zero a s = (λ h. h, omega arith)
length-take-cons (suc n) a s = (λ h. omega arith, omega (arith, length-take-le n s))

module _ (size : ℕ) (amount : ℕ → ℕ) where
  room : Reader → ℕ
  room rd = at_most (suc (amount rd.reads)) (size - length rd.unread)

  view-fill : (rd : Reader) → view (fill size amount rd) ≡ view rd
  unfolding fill
  view-fill rd = append_assoc rd.unread _ _ ∙ ap (λ s. rd.unread ++ s) (take-append-drop _ rd.input)

  -- A read fills in a byte or more, and fits the buffer.
  unread-fill :
      (rd : Reader) {a : ℕ} {s : Text}
      → length rd.unread < size
      → rd.input ≡ a ∷ s
      → (length rd.unread < length (fill size amount rd).unread)
        × (length (fill size amount rd).unread ≤ size)
  unfolding fill room
  unread-fill rd {a} {s} room_left e =
      let total = length-append rd.unread (take (room rd) rd.input) in
      let (more, fits) = length-take-cons (room rd) a s in
      let more' = subst (λ i. 0 < length (take (room rd) i)) (sym e) (more (ground arith)) in
      let fits' = subst (λ i. length (take (room rd) i) ≤ room rd) (sym e) fits in
      (omega arith, ground arith)

  -- What the loop of `ReadSlice` owes to its view: the slice, whether there was a newline, and the
  -- bytes that are left; and all of the buffer is read unless a newline was found.
  abbrev pub Slices : Reader → Text × Bool × Reader → Type 0
  Slices rd r =
      (read_slice size (view rd) ≡ (r.0, r.1, view r.2))
      × (length r.2.unread ≤ size)
      × (r.1 ≡ false → r.2.unread ≡ [])

  all_read : Reader → Reader
  all_read rd = record rd { read = rd.read ++ rd.unread; unread = [] }

  -- The four ways of a round.
  slice_loop-found :
      (fuel : ℕ) (rd : Reader) {l rest : Text}
      → cut_line rd.unread ≡ some (l, rest)
      → slice_loop size amount (suc fuel) rd
        ≡ (l, true, record rd { read = rd.read ++ (l ++ (newline ∷ [])); unread = rest })
  unfolding slice_loop
  slice_loop-found fuel rd e = ground arith

  slice_loop-full :
      (fuel : ℕ) (rd : Reader)
      → cut_line rd.unread ≡ none
      → leb size (length rd.unread) ≡ true
      → slice_loop size amount (suc fuel) rd ≡ (rd.unread, false, all_read rd)
  unfolding slice_loop all_read
  slice_loop-full fuel rd e full = ground arith

  slice_loop-end :
      (fuel : ℕ) (rd : Reader)
      → cut_line rd.unread ≡ none
      → rd.input ≡ []
      → slice_loop size amount (suc fuel) rd ≡ (rd.unread, false, all_read rd)
  unfolding slice_loop all_read
  slice_loop-end fuel rd e end = ground arith

  slice_loop-more :
      (fuel : ℕ) (rd : Reader) {a : ℕ} {s : Text}
      → cut_line rd.unread ≡ none
      → leb size (length rd.unread) ≡ false
      → rd.input ≡ a ∷ s
      → slice_loop size amount (suc fuel) rd ≡ slice_loop size amount fuel (fill size amount rd)
  unfolding slice_loop
  slice_loop-more fuel rd e room_left more = ground arith

  Slices-found :
      (rd : Reader) (l rest : Text)
      → rd.unread ≡ l ++ (newline ∷ rest)
      → PlainLine l
      → length rd.unread ≤ size
      → Slices rd (l, true, record rd { read = rd.read ++ (l ++ (newline ∷ [])); unread = rest })
  Slices-found rd l rest split plain fits =
      let total = ap (λ s. length s) split ∙ length-append l (newline ∷ rest) in
      (
        ap (λ s. read_slice size (s ++ rd.input)) split
            ∙ ap (read_slice size) (append_assoc l (newline ∷ rest) rd.input)
            ∙ read_slice-short size l (rest ++ rd.input) plain (omega arith),
        omega arith,
        λ h. cc,
      )

  Slices-full :
      (rd : Reader)
      → PlainLine rd.unread
      → length rd.unread ≡ size
      → Slices rd (rd.unread, false, all_read rd)
  unfolding all_read
  Slices-full rd plain full = (
    read_slice-long size rd.unread rd.input plain (omega arith)
        ∙ ap₂ (λ (s t : Text). (s, false, t ++ rd.input)) (take_all size rd.unread (omega arith))
            (drop_all size rd.unread (omega arith)),
    omega arith,
    λ _. refl,
  )

  Slices-end :
      (rd : Reader)
      → PlainLine rd.unread
      → length rd.unread < size
      → rd.input ≡ []
      → Slices rd (rd.unread, false, all_read rd)
  unfolding all_read
  Slices-end rd plain room_left end = (
    ap (λ s. read_slice size (rd.unread ++ s)) end
        ∙ ap (read_slice size) (append-nil rd.unread)
        ∙ read_slice-end size rd.unread plain room_left
        ∙ ap (λ (s : Text). (rd.unread, false, s)) (sym end),
    omega arith,
    λ _. refl,
  )

  Slices-fill :
      (rd : Reader) (r : Text × Bool × Reader) → Slices (fill size amount rd) r → Slices rd r
  Slices-fill rd r (same, fits, done) =
      (ap (read_slice size) (sym (view-fill rd)) ∙ same, fits, done)

  pub slice_loop-read_slice :
      (fuel : ℕ) (rd : Reader)
      → length rd.unread ≤ size
      → size < length rd.unread + fuel
      → Slices rd (slice_loop size amount fuel rd)
  slice_loop-read_slice zero rd fits k = absurd (omega arith)
  slice_loop-read_slice (suc fuel) rd fits k = elim (Option-cases (cut_line rd.unread)) [
    | inr ((l, rest), e) ↦
        let (split, plain) = cut_line-some rd.unread e in
        rw (slice_loop-found fuel rd e) (Slices-found rd l rest split plain fits)
    | inl e ↦
        let plain = cut_line-none rd.unread e in
        elim (Bool-cases (leb size (length rd.unread))) [
          | inl full ↦ rw (slice_loop-full fuel rd e full) (Slices-full rd plain (ground arith))
          | inr room_left ↦ elim (List-cases rd.input) [
            | inl end ↦ rw (slice_loop-end fuel rd e end) (Slices-end rd plain (ground arith) end)
            | inr (a, s, more) ↦
                let (grows, fits') = unread-fill rd (ground arith) more in
                rw (slice_loop-more fuel rd e room_left more) (
                  Slices-fill rd (slice_loop size amount fuel (fill size amount rd))
                    (slice_loop-read_slice fuel (fill size amount rd) fits' (omega arith)))
          ]
        ]
  ]
