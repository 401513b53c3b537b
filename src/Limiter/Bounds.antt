-- ===== src/Limiter/Bounds.antt =====
-- The numbers that `allow` of internal/middleware/ratelimit.go reports.
use mathlib.Core.Path.{subst}
use gogateway.Base.{
  ℕ, ◌+◌, ◌<◌, Option, none, some, sym, ◌≡◌, refl, true, false, ap, ◌∙◌, arith, Bool-cases, inl,
  inr, ◌⊎◌,
}
use gogateway.Base.Int.{
  ℤ, incr, incr-pos, pos, leb_ℤ, leb_ℤ_iff, ◌≤ℤ◌, ◌-ℤ◌, ◌<ℤ◌, wrap64, wrap64_exact, IsInt64,
  int_laws,
}
use gogateway.Base.Clock.{Time, Duration, sub, after}
use gogateway.Base.Text.{Text, text_eq_iff}
use gogateway.Base.Maps.{lookup, lookup-insert}
use gogateway.Limiter.{
  MemoryEntry, Entries, Verdict, client_key, counted, current, at_least_zero, verdict, allow_key,
  memory_allow,
}

at_least_zero_nonneg : (a : ℤ) → pos 0 ≤ℤ at_least_zero a
unfolding at_least_zero
at_least_zero_nonneg a = ground arith

at_least_zero_id : (a : ℤ) → pos 0 ≤ℤ a → at_least_zero a ≡ a
unfolding at_least_zero
at_least_zero_id a h = ground arith

-- The answer for a request that is the `count`-th of its window.
abbrev pub Reports : ℤ → ℤ → Verdict → Type 0
Reports limit count v =
    ((v.allowed ≡ true) × (count ≤ℤ limit) × (v.remaining ≡ limit -ℤ count)
      ⊎ (v.allowed ≡ false) × (limit <ℤ count) × (v.remaining ≡ pos 0))
    × (pos 0 ≤ℤ v.remaining)
    × (pos 0 ≤ℤ v.reset)

verdict-Reports :
    (limit : ℤ) (later : Time) (e : MemoryEntry)
    → IsInt64 limit
    → IsInt64 e.count
    → pos 0 ≤ℤ e.count
    → Reports limit e.count (verdict limit later e)
unfolding verdict
verdict-Reports limit later e fits count_fits nonneg =
    let exact : e.count ≤ℤ limit → wrap64 (limit -ℤ e.count) ≡ limit -ℤ e.count =
      λ le. wrap64_exact (limit -ℤ e.count) (omega int_laws) in
    let remaining_nonneg = at_least_zero_nonneg (wrap64 (limit -ℤ e.count)) in
    let reset_nonneg = at_least_zero_nonneg (sub e.reset_at later) in
    elim (Bool-cases (leb_ℤ e.count limit)) [
      | inl within ↦
          let le : e.count ≤ℤ limit = (leb_ℤ_iff e.count limit).0 within in
          let left : at_least_zero (wrap64 (limit -ℤ e.count)) ≡ limit -ℤ e.count =
            ap at_least_zero (exact le) ∙ at_least_zero_id (limit -ℤ e.count) (omega int_laws) in
          rw within (inl (refl, le, left), remaining_nonneg, reset_nonneg)
      | inr beyond ↦ rw beyond (inr (refl, ground arith, refl), omega arith, reset_nonneg)
    ]

-- How many requests of the current window an entry stands for: none if there is no entry or its
-- window is over.
pub data Before (now : Time) : Option MemoryEntry → ℕ → Type 0 where
  no_entry : Before now none 0
  expired : (e : MemoryEntry) → after now e.reset_at ≡ true → Before now (some e) 0
  live :
      (e : MemoryEntry) (n : ℕ)
      → after now e.reset_at ≡ false
      → e.count ≡ pos n
      → Before now (some e) n

counted-count :
    (window : Duration) (now : Time) (found : Option MemoryEntry) (n : ℕ)
    → Before now found n
    → n < 9223372036854775807
    → (counted window now found).count ≡ pos (n + 1)
unfolding counted current
counted-count window now _ _ no_entry few = incr-pos 0 few
counted-count window now _ _ (expired e over) few = rw over (incr-pos 0 few)
counted-count window now _ n (live e _ open' count) few = rw open' (ap incr count ∙ incr-pos n few)

-- A request that finds `n` requests counted in the current window of its client and route, so none
-- if there is no entry or its window is over, is the n + 1st: this count is stored, the request is
-- allowed exactly when it is within the limit, the requests remaining are the rest of the limit, and
-- none if it is refused; neither number reported is negative. The limit is a 64-bit integer, and n
-- below the largest.
pub memory_allow-Reports :
    (route_id client_id : Text) (limit : ℤ) (window : Duration) (now later : Time) (m : Entries)
    (n : ℕ)
    → Before now (lookup (client_key route_id client_id) m) n
    → n < 9223372036854775807
    → IsInt64 limit
    → let (m', v) = memory_allow route_id client_id limit window now later m in
      (e : MemoryEntry) × (lookup (client_key route_id client_id) m' ≡ some e)
      × (e.count ≡ pos (n + 1))
      × Reports limit (pos (n + 1)) v
unfolding memory_allow allow_key
memory_allow-Reports route_id client_id limit window now later m n before few fits =
    let key = client_key route_id client_id in
    let e = counted window now (lookup key m) in
    let is = counted-count window now (lookup key m) n before few in
    let same = (text_eq_iff key key).1 refl in
    (
      e,
      lookup-insert key key e m ∙ rw same refl,
      is,
      subst (λ (c : ℤ). Reports limit c (verdict limit later e)) is
          (verdict-Reports limit later e fits (subst IsInt64 (sym is) (omega arith))
            (subst (λ (c : ℤ). pos 0 ≤ℤ c) (sym is) (omega arith))),
    )
