-- ===== src/Steamcmd/Lines.antt =====
-- What `bufio.Reader.ReadLine` with a buffer of `size` bytes returns, told by the bytes that are still
-- to come: the abstract view of the reader in Steamcmd/Reader.antt.
pub mod Laws
pub mod Fuel
use nomad_driver_steamcmd.Base.{
  ℕ, zero, suc, Text, nat_eq, text_eq, text_beq, ◌==◌, length, Bool, true, false, not, ◌&&◌, Option,
  none, some, List, [], ◌∷◌, if◌then◌else◌,
}

abbrev pub newline : ℕ
newline = 10

abbrev pub carriage_return : ℕ
carriage_return = 13

-- Up to `size` bytes, to the first newline, which is dropped; whether one was found; and the rest.
unfoldable pub read_slice : ℕ → Text → Text × Bool × Text
read_slice zero s = ([], false, s)
read_slice (suc size) [] = ([], false, [])
read_slice (suc size) (a ∷ s) =
    let more = read_slice size s in
    if a == newline then ([], true, s) else (a ∷ more.0, more.1, more.2)

-- A text without a carriage return at its end, and whether there was one.
unfoldable pub drop_return : Text → Text × Bool
drop_return [] = ([], false)
drop_return (a ∷ []) = if a == carriage_return then ([], true) else (a ∷ [], false)
drop_return (a ∷ b ∷ s) = let rest = drop_return (b ∷ s) in (a ∷ rest.0, rest.1)

pub record ReadLine : Type 0 where
  pub line : Text
  pub is_prefix : Bool
  pub rest : Text

-- A full buffer that ends in a carriage return gives it back, in case that a newline follows.
unfoldable pub finish_line : ℕ → Text → Bool → Text → Option ReadLine
unfolding drop_return text_beq
finish_line size slice found rest =
    let (short, returned) = drop_return slice in
    if found
    then some (record { line = short; is_prefix = false; rest = rest })
    else if slice == []
    then none
    else if length slice == size
    then some (record {
      line = short;
      is_prefix = true;
      rest = if returned then carriage_return ∷ rest else rest;
    })
    else some (record { line = slice; is_prefix = false; rest = rest })

-- `ReadLine`; `none` is `io.EOF`.
unfoldable pub read_line : ℕ → Text → Option ReadLine
unfolding read_slice finish_line
read_line size s = let (slice, found, rest) = read_slice size s in finish_line size slice found rest

-- The rest of an overlong line.
unfoldable pub skip_line : ℕ → ℕ → Text → Text
skip_line zero size s = s
skip_line (suc fuel) size s = elim (read_line size s) [
  | none ↦ s
  | some r ↦ let more = skip_line fuel size r.rest in if r.is_prefix then more else r.rest
]

-- Where the next line begins.
unfoldable pub after_line : ℕ → ℕ → ReadLine → Text
after_line fuel size r = if r.is_prefix then skip_line fuel size r.rest else r.rest

unfoldable pub read_lines_from : ℕ → ℕ → Text → List Text
read_lines_from zero size s = []
read_lines_from (suc fuel) size s = elim (read_line size s) [
  | none ↦ []
  | some r ↦ r.line ∷ read_lines_from fuel size (after_line fuel size r)
]

-- Every line, an overlong one cut to its first buffer. Each round reads a byte or more, so the fuel is enough.
unfoldable pub read_lines : ℕ → Text → List Text
unfolding read_lines_from after_line skip_line read_line
read_lines size s = read_lines_from (suc (length s)) size s
