-- ===== src/Base/Decimal.antt =====
-- Decimal notation, as strconv prints it.
use Prim.Native.Nat.{ℕ, zero, suc, ◌+◌, ◌-◌, ◌*◌, ◌/◌, ◌%◌, ◌^◌, ◌<◌}
use mathlib.Core.Path.{◌≡◌, refl}
use mathlib.Core.Logic.{inl, inr}
use native.Mathlib.Nat.{pow-succ'}
use native.Mathlib.Omega.{arith}
use mathlib.Core.List.{[], ◌∷◌, ◌++◌}
use gogateway.Base.Tests.{ltb, if◌then◌else◌, Bool-cases}
use gogateway.Base.Int.{ℤ, pos, negsuc}
use gogateway.Base.Text.{Text}

-- The digits of a number, the last ones first in the recursion; `fuel` bounds their number.
unfoldable pub digits : ℕ → ℕ → Text
digits zero n = []
digits (suc fuel) n =
    let before = digits fuel (n / 10) in (if ltb n 10 then [] else before) ++ (b'0' + n % 10) ∷ []

-- strconv.Itoa, and FormatInt in base 10: a 64-bit number has at most 20 digits.
unfoldable pub itoa : ℤ → Text
itoa (pos n) = digits 20 n
itoa (negsuc n) = b'-' ∷ digits 20 (suc n)

-- The number that a text of digits stands for.
abbrev read_from : ℕ → Text → ℕ
read_from n [] = n
read_from n (c ∷ s) = read_from (n * 10 + (c - b'0')) s

abbrev pub read : Text → ℕ
read s = read_from 0 s

read_from-append :
    (n c : ℕ) (s : Text) → read_from n (s ++ c ∷ []) ≡ read_from n s * 10 + (c - b'0')
read_from-append n c [] = refl
read_from-append n c (d ∷ s) = read_from-append (n * 10 + (d - b'0')) c s

smaller_quotient : (fuel n : ℕ) → n < 10 ^ suc fuel → n / 10 < 10 ^ fuel
smaller_quotient fuel n small = let power = pow-succ' 10 fuel in omega arith

-- Reading the digits of a number gives it back, if the fuel is enough.
pub read-digits : (fuel n : ℕ) → n < 10 ^ fuel → read (digits fuel n) ≡ n
unfolding digits
read-digits zero n small = omega arith
read-digits (suc fuel) n small =
    let smaller : n / 10 < 10 ^ fuel = smaller_quotient fuel n small in
    let before = read-digits fuel (n / 10) smaller in
    elim (Bool-cases (ltb n 10)) [
      | inl one_digit ↦ rw (one_digit, read_from-append 0 (b'0' + n % 10) []) (ground arith)
      | inr more ↦
          rw (more, read_from-append 0 (b'0' + n % 10) (digits fuel (n / 10)), before)
            (ground arith)
    ]
