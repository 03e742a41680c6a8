-- ===== src/LogFollow/Lines.antt =====
-- Whole lines: none is lost or cut.
use nomad_driver_steamcmd.Base.{
  ℕ, zero, suc, nat_eq, Text, text_eq, contains_byte, ◌==◌, length, All, All-append, Bool-cases,
  false, Option, none, some, List, [], ◌∷◌, ◌++◌, ◌≤◌, ◌<◌, ◌≡◌, refl, sym, ap, ◌∙◌, arith, inl,
  inr,
}
use mathlib.Core.List.{append-nil, append_assoc}
use nomad_driver_steamcmd.LogFollow.{first_line, write_lines, Read, drain, taken}

-- All that was written.
unfoldable pub joined : List Text → Text
joined [] = []
joined (t ∷ ts) = t ++ joined ts

pub joined-append : (ts us : List Text) → joined (ts ++ us) ≡ joined ts ++ joined us
unfolding joined
joined-append [] us = refl
joined-append (t ∷ ts) us =
    ap (λ s. t ++ s) (joined-append ts us) ∙ sym (append_assoc t (joined ts) (joined us))

-- A line: text without a newline, and then one.
pub record IsLine (t : Text) : Type 0 where
  pub body : Text
  pub plain : contains_byte body 10 ≡ false
  pub ends : t ≡ body ++ (10 ∷ [])

abbrev pub Cut : Text → Option (Text × Text) → Type 0
Cut s none = contains_byte s 10 ≡ false
Cut s (some (line, rest)) = IsLine line × (s ≡ line ++ rest) × (length rest < length s)

IsLine-cons : (b : ℕ) (line : Text) → (b == 10) ≡ false → IsLine line → IsLine (b ∷ line)
unfolding contains_byte
IsLine-cons b line other l = record {
  body = b ∷ l.body;
  plain = ground (arith, l.plain);
  ends = ap (λ s. b ∷ s) l.ends;
}

first_line-Cut : (s : Text) → Cut s (first_line s)
unfolding first_line contains_byte
first_line-Cut [] = refl
first_line-Cut (b ∷ s) = elim (Bool-cases (b == 10)) [
  | inl here ↦ rw here (record { body = []; plain = refl; ends = refl }, ground arith, omega arith)
  | inr other ↦ rw other (pushed other (first_line s) (first_line-Cut s))
]
  where
    pushed :
        (b == 10) ≡ false
        → (o : Option (Text × Text)) → Cut s o
        → Cut (b ∷ s) (elim o [ none ↦ none | some (line, rest) ↦ some (b ∷ line, rest) ])
    pushed other none h = ground arith
    pushed other (some (line, rest)) (l, e, shorter) =
        (IsLine-cons b line other l, ap (λ t. b ∷ t) e, omega arith)

-- What is claimed of the lines that are written of a text, and of what is left.
pub record Cuts (s : Text) (p : List Text × Text) : Type 0 where
  pub whole : All IsLine p.0
  pub rest_plain : contains_byte p.1 10 ≡ false
  pub same : joined p.0 ++ p.1 ≡ s

Cuts-nil : (s : Text) → contains_byte s 10 ≡ false → Cuts s ([], s)
unfolding joined
Cuts-nil s plain = record { whole = tt; rest_plain = plain; same = refl }

-- First the lines of one text, then those of what was left and of another text.
Cuts-append :
    (a b : Text) (p q : List Text × Text)
    → Cuts a p
    → Cuts (p.1 ++ b) q
    → Cuts (a ++ b) (p.0 ++ q.0, q.1)
Cuts-append a b p q c d = record {
  whole = All-append IsLine p.0 q.0 c.whole d.whole;
  rest_plain = d.rest_plain;
  same =
      ap (λ t. t ++ q.1) (joined-append p.0 q.0)
      ∙ append_assoc (joined p.0) (joined q.0) q.1
      ∙ ap (λ t. joined p.0 ++ t) d.same
      ∙ sym (append_assoc (joined p.0) p.1 b)
      ∙ ap (λ t. t ++ b) c.same;
}

Cuts-cons :
    (s line rest : Text) (p : List Text × Text)
    → IsLine line
    → s ≡ line ++ rest
    → Cuts rest p
    → Cuts s (line ∷ p.0, p.1)
unfolding joined
Cuts-cons s line rest p l e c = record {
  whole = (l, c.whole);
  rest_plain = c.rest_plain;
  same = append_assoc line (joined p.0) p.1 ∙ ap (λ t. line ++ t) c.same ∙ sym e;
}

write_lines-Cuts : (fuel : ℕ) (s : Text) → length s ≤ fuel → Cuts s (write_lines fuel s)
unfolding write_lines
write_lines-Cuts zero [] h = Cuts-nil [] (unfold contains_byte in refl)
write_lines-Cuts zero (b ∷ s) h = absurd (omega arith)
write_lines-Cuts (suc fuel) s h =
    go (first_line s) (first_line-Cut s) (λ rest k. write_lines-Cuts fuel rest k)
  where
    go :
        (o : Option (Text × Text))
        → Cut s o
        → ((rest : Text) → length rest ≤ fuel → Cuts rest (write_lines fuel rest))
        → Cuts s (elim o [
          | none ↦ ([], s)
          | some (line, rest) ↦ let (lines, left) = write_lines fuel rest in (line ∷ lines, left)
        ])
    go none c ih = Cuts-nil s c
    go (some (line, rest)) (l, e, shorter) ih =
        Cuts-cons s line rest (write_lines fuel rest) l e (ih rest (omega arith))

-- `drain` writes whole lines, leaves nothing with a newline, and neither loses, repeats nor reorders
-- a byte: what is written and what is left are what was left before and what was read. Its loops end
-- whatever is read.
pub drain-Cuts :
    (reads : List Read) (partial : Text)
    → contains_byte partial 10 ≡ false
    → Cuts (partial ++ taken reads) (drain reads partial)
unfolding drain taken
drain-Cuts [] partial plain = rw append-nil (Cuts-nil partial plain)
drain-Cuts (r ∷ reads) partial plain = elim (Bool-cases (r.chunk == [])) [
  | inl empty ↦ rw (empty, append-nil) (Cuts-nil partial plain)
  | inr some_ ↦ elim (Bool-cases r.failed) [
    | inl failed ↦ rw some_ (rw failed first)
    | inr more ↦ rw some_ (
        rw more (
          rw append_assoc at (
            Cuts-append (partial ++ r.chunk) (taken reads) written (drain reads written.1) first
              (drain-Cuts reads written.1 first.rest_plain))))
  ]
]
  where
    written : List Text × Text
    written = write_lines (length (partial ++ r.chunk)) (partial ++ r.chunk)

    first : Cuts (partial ++ r.chunk) written
    first = write_lines-Cuts (length (partial ++ r.chunk)) (partial ++ r.chunk) (omega arith)
