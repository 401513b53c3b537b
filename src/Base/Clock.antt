-- ===== src/Base/Clock.antt =====
-- `time.Time` and `time.Duration` of the Go library, in nanoseconds. An instant is counted from the
-- zero `Time`; it is unbounded here, as every instant that a clock gives is in the library's range.
use mathlib.Core.Bool.{Bool}
use mathlib.Core.Logic.{◌↔◌}
use native.Mathlib.Omega.{arith}
use gogateway.Base.Tests.{if◌then◌else◌}
use gogateway.Base.Int.{ℤ, pos, ◌+ℤ◌, ◌-ℤ◌, ◌≤ℤ◌, ltb_ℤ, max_int, min_int, IsInt64, int_laws}

abbrev pub Time : Type 0
Time = ℤ

abbrev pub Duration : Type 0
Duration = ℤ

abbrev pub zero_time : Time
zero_time = pos 0

abbrev pub second : Duration
second = pos 1000000000

-- t.After(u)
abbrev pub after : Time → Time → Bool
after t u = ltb_ℤ u t

-- t.Add(d)
abbrev pub add : Time → Duration → Time
add t d = t +ℤ d

-- A 64-bit duration nearest to an integer.
unfoldable pub saturate : ℤ → Duration
saturate d = if ltb_ℤ max_int d then max_int else if ltb_ℤ d min_int then min_int else d

-- t.Sub(u), which saturates at the ends of `int64`
unfoldable pub sub : Time → Time → Duration
sub t u = saturate (t -ℤ u)

le-saturate_iff : (d e : ℤ) → IsInt64 d → pos 0 ≤ℤ d → (d ≤ℤ saturate e) ↔ (d ≤ℤ e)
unfolding saturate
le-saturate_iff d e h nonneg = ground arith

-- A 64-bit bound that is not negative lies below the saturated difference exactly when it lies below
-- the true one.
pub le-sub_iff :
    (d : Duration) (t u : Time) → IsInt64 d → pos 0 ≤ℤ d → (d ≤ℤ sub t u) ↔ (u +ℤ d ≤ℤ t)
unfolding sub
le-sub_iff d t u h nonneg =
    let (to, from) = le-saturate_iff d (t -ℤ u) h nonneg in
    (λ k. let l = to k in omega int_laws, λ k. from (omega int_laws))
