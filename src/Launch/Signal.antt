-- ===== src/Launch/Signal.antt =====
-- Signals by number.
use nomad_driver_steamcmd.Base.{
  ℕ, zero, suc, ltb, nat_eq, Text, text_eq, text_beq, pos, read_digits, digits, itoa_ℕ,
  read_digits-digits, Bool-cases, none, some, [], ◌∷◌, ◌++◌, ok, ◌≡◌, refl, sym, ap, ◌∙◌, ◌+◌, ◌/◌,
  ◌%◌, ◌^◌, ◌<◌, ◌≤◌, arith, inl, inr,
}
use nomad_driver_steamcmd.Launch.{magnitude, atoi, named_signal, parse_signal}

-- A text that begins with a digit.
record StartsWithDigit (s : Text) : Type 0 where
  pub first : ℕ
  pub rest : Text
  pub starts : s ≡ first ∷ rest
  pub from_0 : b'0' ≤ first
  pub to_9 : first ≤ b'9'

digits-StartsWithDigit : (fuel n : ℕ) → n < suc fuel → StartsWithDigit (digits (suc fuel) n)
unfolding digits
digits-StartsWithDigit zero n h = record {
  first = b'0' + n;
  rest = [];
  starts = ground arith;
  from_0 = ground arith;
  to_9 = ground arith;
}
digits-StartsWithDigit (suc fuel) n h = elim (Bool-cases (ltb n 10)) [
  | inl short ↦ record {
    first = b'0' + n;
    rest = [];
    starts = rw short refl;
    from_0 = ground arith;
    to_9 = ground arith;
  }
  | inr long ↦
      let d = digits-StartsWithDigit fuel (n / 10) (ground arith) in
      record {
        first = d.first;
        rest = d.rest ++ ((b'0' + n % 10) ∷ []);
        starts = rw long (ap (λ x. x ++ ((b'0' + n % 10) ∷ [])) d.starts);
        from_0 = d.from_0;
        to_9 = d.to_9;
      }
]

named_signal-digit : (first : ℕ) (rest : Text) → first ≤ b'9' → named_signal (first ∷ rest) ≡ none
unfolding named_signal text_beq
named_signal-digit first rest h = ground arith

atoi-digits :
    (first : ℕ) (rest : Text) (n : ℕ)
    → b'0' ≤ first
    → read_digits 0 (first ∷ rest) ≡ some n
    → n < 2 ^ 63
    → atoi (first ∷ rest) ≡ some (pos n)
unfolding atoi magnitude
atoi-digits first rest n from_0 h small = ground arith

parse_signal-number :
    (s : Text) (n : ℕ) → named_signal s ≡ none → atoi s ≡ some (pos n) → parse_signal s ≡ ok (pos n)
unfolding parse_signal
parse_signal-number s n unnamed number = rw (unnamed, number, parse_signal) refl

-- A number below 2 ^ 63, written in decimal, is the signal with that number.
pub parse_signal-itoa : (n : ℕ) → n < 2 ^ 63 → parse_signal (itoa_ℕ n) ≡ ok (pos n)
unfolding itoa_ℕ
parse_signal-itoa n small =
    let d = digits-StartsWithDigit n n (omega arith) in
    let read : read_digits 0 (d.first ∷ d.rest) ≡ some n =
      ap (read_digits 0) (sym d.starts) ∙ read_digits-digits (suc n) n (omega arith) in
    ap parse_signal d.starts
    ∙ parse_signal-number (d.first ∷ d.rest) n (named_signal-digit d.first d.rest d.to_9)
        (atoi-digits d.first d.rest n d.from_0 read small)
