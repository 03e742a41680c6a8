-- ===== src/Base/Numbers.antt =====
-- Signed integers, and decimal numerals as `strconv` and `fmt` write and read them.
use Prim.Native.Nat.{ℕ, zero, suc, ◌+◌, ◌-◌, ◌*◌, ◌/◌, ◌%◌, ◌<◌}
use mathlib.Core.Path.{◌≡◌}
use mathlib.Core.Bool.{◌&&◌}
use mathlib.Core.Option.{Option, none, some}
use mathlib.Core.List.{[], ◌∷◌, ◌++◌}
use native.Mathlib.Omega.{arith}
use nomad_driver_steamcmd.Base.Tests.{ltb, leb, if◌then◌else◌}
use nomad_driver_steamcmd.Base.Bytes.{Text}

-- `negsuc n` is -(n + 1).
pub data ℤ : Type 0 where
  pos : ℕ → ℤ
  negsuc : ℕ → ℤ

-- A number below `10 ^ fuel` in decimal.
unfoldable pub digits : ℕ → ℕ → Text
digits zero n = []
digits (suc fuel) n =
    let front = digits fuel (n / 10) in
    if ltb n 10 then (b'0' + n) ∷ [] else front ++ ((b'0' + n % 10) ∷ [])

-- `strconv.Itoa`, and `%d`.
unfoldable pub itoa_ℕ : ℕ → Text
unfolding digits
itoa_ℕ n = digits (suc n) n

unfoldable pub itoa : ℤ → Text
unfolding itoa_ℕ
itoa (pos n) = itoa_ℕ n
itoa (negsuc n) = b'-' ∷ itoa_ℕ (suc n)

-- The value of decimal digits behind `acc`, `none` at a byte that is no digit.
unfoldable pub read_digits : ℕ → Text → Option ℕ
read_digits acc [] = some acc
read_digits acc (b ∷ s) =
    let rest = read_digits (acc * 10 + (b - b'0')) s in
    if leb b'0' b && leb b b'9' then rest else none

read_digits-append :
    (acc m : ℕ) (s t : Text)
    → read_digits acc s ≡ some m
    → read_digits acc (s ++ t) ≡ read_digits m t
unfolding read_digits
read_digits-append acc m [] t h = ground arith
read_digits-append acc m (b ∷ s) t h =
    ground (arith, read_digits-append (acc * 10 + (b - b'0')) m s t)

pub read_digits-digits : (fuel n : ℕ) → n < fuel → read_digits 0 (digits fuel n) ≡ some n
unfolding read_digits digits
read_digits-digits zero n h = absurd (omega arith)
read_digits-digits (suc fuel) n h = ground (
  arith,
  read_digits-digits fuel (n / 10),
  read_digits-append 0 (n / 10) (digits fuel (n / 10)) ((b'0' + n % 10) ∷ []),
)
