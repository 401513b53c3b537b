-- ===== src/Limiter/Quota.antt =====
-- How many requests one window of internal/middleware/ratelimit.go lets through.
use gogateway.Base.{
  ℕ, ◌+◌, ◌-◌, ◌<◌, min, ◌≡◌, ap, ◌∙◌, inl, inr, Bool, true, false, Option, none, some, List, [],
  ◌∷◌, if◌then◌else◌, leb, Bool-cases, arith,
}
use gogateway.Base.Int.{pos, ◌+ℤ◌, ◌≤ℤ◌, incr-pos}
use gogateway.Base.Clock.{Time, Duration}
use gogateway.Base.Text.{Text, text_eq, text_eq_iff, text_eq_refl}
use gogateway.Base.Maps.{lookup, lookup-insert_self}
use gogateway.Limiter.{MemoryEntry, Entries, counted, verdict, allow_key, clean_expired}
use gogateway.Limiter.Entries.{lookup-allow_key, kept, lookup-clean_expired}
use gogateway.Limiter.Sweep.{Op, request, tick}

abbrev pub one_if : Bool → ℕ
one_if true = 1
one_if false = 0

-- How many of the operations are requests for the key.
abbrev pub requests_of : Text → List Op → ℕ
requests_of key [] = 0
requests_of key (request k limit window now later ∷ ops) =
    one_if (text_eq k key) + requests_of key ops
requests_of key (tick now ∷ ops) = requests_of key ops

-- How many requests for the key are allowed.
unfoldable pub admitted_of : Text → List Op → Entries → ℕ
admitted_of key [] m = 0
admitted_of key (request k limit window now later ∷ ops) m =
    let (m', v) = allow_key k limit window now later m in
    (if text_eq k key then one_if v.allowed else 0) + admitted_of key ops m'
admitted_of key (tick now ∷ ops) m = admitted_of key ops (clean_expired now m)

-- The requests for the key have the limit and come no later than `r`, and so does the clean-up.
-- Requests for other keys are arbitrary.
abbrev pub InWindow : Text → ℕ → Time → List Op → Type 0
InWindow key limit r [] = Unit
InWindow key limit r (request k lim window now later ∷ ops) =
    (text_eq k key ≡ true → (lim ≡ pos limit) × (now ≤ℤ r)) × InWindow key limit r ops
InWindow key limit r (tick now ∷ ops) = (now ≤ℤ r) × InWindow key limit r ops

abbrev entry : ℕ → Time → MemoryEntry
entry c r = record { count = pos c; reset_at = r }

allowed-verdict :
    (limit n : ℕ) (later r : Time) → (verdict (pos limit) later (entry n r)).allowed ≡ leb n limit
unfolding verdict
allowed-verdict limit n later r = ground arith

counted_live :
    (c : ℕ) (r : Time) (window : Duration) (now : Time)
    → now ≤ℤ r
    → c < 9223372036854775807
    → counted window now (some (entry c r)) ≡ entry (c + 1) r
unfolding counted
counted_live c r window now early few = ground (arith, incr-pos c)

counted_fresh :
    (window : Duration) (now : Time) (found : Option MemoryEntry)
    → kept now found ≡ none
    → counted window now found ≡ entry 1 (now +ℤ window)
unfolding counted
counted_fresh window now found gone = ground (arith, incr-pos 0)

module _ (key : Text) (limit : ℕ) where
  -- The answer is read off the entry that is left at the key.
  allowed_by_entry :
      (window : Duration) (now later : Time) (m : Entries) (n : ℕ) (r : Time)
      → counted window now (lookup key m) ≡ entry n r
      → ((allow_key key (pos limit) window now later m).1.allowed ≡ leb n limit)
        × (lookup key (allow_key key (pos limit) window now later m).0 ≡ some (entry n r))
  unfolding allow_key
  allowed_by_entry window now later m n r left = (
    ap (λ (e : MemoryEntry). (verdict (pos limit) later e).allowed) left
        ∙ allowed-verdict limit n later r,
    rw lookup-insert_self (ap some left),
  )

  module _ (r : Time) where
    admitted_live :
        (ops : List Op) (c : ℕ) (m : Entries)
        → lookup key m ≡ some (entry c r)
        → InWindow key limit r ops
        → c + requests_of key ops < 9223372036854775808
        → admitted_of key ops m ≡ min (requests_of key ops) (limit - c)
    unfolding admitted_of
    admitted_live [] c m found w few = omega arith
    admitted_live (request k lim window now later ∷ ops) c m found w few =
        elim (Bool-cases (text_eq k key)) [
          | inl e ↦
              let same = (text_eq_iff k key).0 e in
              let (limits, early) = w.0 e in
              let fewer : c + (1 + requests_of key ops) < 9223372036854775808 = rw e at few in
              let live = counted_live c r window now early (omega arith) in
              let (allows, left) =
                allowed_by_entry window now later m (c + 1) r
                  (ap (counted window now) found ∙ live) in
              let rest =
                admitted_live ops (c + 1) (allow_key key (pos limit) window now later m).0 left w.1
                  (omega arith) in
              rw (same, limits, text_eq_refl) (ground arith)
          | inr e ↦
              let fewer : c + (0 + requests_of key ops) < 9223372036854775808 = rw e at few in
              let left : lookup key (allow_key k lim window now later m).0 ≡ some (entry c r) =
                rw (lookup-allow_key, e) found in
              let rest =
                admitted_live ops c (allow_key k lim window now later m).0 left w.1 (omega arith) in
              rw e (omega arith)
        ]
    admitted_live (tick now ∷ ops) c m found w few =
        admitted_live ops c (clean_expired now m) (rw (lookup-clean_expired, found) (ground arith))
          w.1 few

-- From the first request for a key that has no live entry, until its window `[now, now + window]`
-- is over: of all the requests for the key the first `limit` are allowed and no other, whatever
-- requests for other keys and clean-ups come in between. Fewer
-- than 2 ^ 63 requests for the key come.
pub window_quota :
    (key : Text) (limit : ℕ) (window : Duration) (now later : Time) (ops : List Op) (m : Entries)
    → kept now (lookup key m) ≡ none
    → InWindow key limit (now +ℤ window) ops
    → 1 + requests_of key ops < 9223372036854775808
    → admitted_of key (request key (pos limit) window now later ∷ ops) m
      ≡ min (1 + requests_of key ops) limit
unfolding admitted_of
window_quota key limit window now later ops m gone w few =
    let (allows, left) =
      allowed_by_entry key limit window now later m 1 (now +ℤ window)
        (counted_fresh window now (lookup key m) gone) in
    let rest =
      admitted_live key limit (now +ℤ window) ops 1 (allow_key key (pos limit) window now later m).0
        left w few in
    rw text_eq_refl (ground arith)
