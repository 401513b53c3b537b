-- ===== src/Limiter/Entries.antt =====
-- The limiter of internal/middleware/ratelimit.go seen one key at a time.
use gogateway.Base.{◌≡◌, refl, Option, none, some, [], ◌∷◌, if◌then◌else◌, arith}
use gogateway.Base.Int.{ℤ}
use gogateway.Base.Clock.{Time, Duration, after}
use gogateway.Base.Text.{Text, text_eq, text_eq_iff}
use gogateway.Base.Maps.{lookup, lookup-insert, lookup-erase}
use gogateway.Limiter.{MemoryEntry, Entries, counted, allow_key, clean_expired}

pub lookup-allow_key :
    (key j : Text) (limit : ℤ) (window : Duration) (now later : Time) (m : Entries)
    → lookup j (allow_key key limit window now later m).0
      ≡ (if text_eq key j then some (counted window now (lookup key m)) else lookup j m)
unfolding allow_key
lookup-allow_key key j limit window now later m = lookup-insert key j _ m

-- What a sweep leaves of an entry.
abbrev pub kept : Time → Option MemoryEntry → Option MemoryEntry
kept now none = none
kept now (some entry) = if after now entry.reset_at then none else some entry

pub lookup-clean_expired :
    (now : Time) (j : Text) (m : Entries) → lookup j (clean_expired now m) ≡ kept now (lookup j m)
unfolding clean_expired lookup
lookup-clean_expired now j [] = refl
lookup-clean_expired now j ((k, v) ∷ m) =
    ground
      (arith, lookup-clean_expired now j m, lookup-erase k j (clean_expired now m), text_eq_iff k j)
