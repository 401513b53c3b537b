-- ===== src/Limiter.antt =====
-- The in-memory rate limiter, `memoryLimiter` of internal/middleware/ratelimit.go. `allow` and
-- `cleanExpired` hold the mutex throughout, so each is one function on the entries. An entry is
-- mutated through the pointer that the map holds, which is a write at its key here.
pub mod Entries
pub mod Sweep
pub mod Quota
pub mod Bounds
pub mod Redis
pub mod Client
mod Tests
use gogateway.Base.{Bool, true, false, Option, none, some, [], ◌∷◌, ◌++◌, if◌then◌else◌}
use gogateway.Base.Int.{ℤ, pos, ◌-ℤ◌, ltb_ℤ, leb_ℤ, incr, wrap64}
use gogateway.Base.Clock.{Time, Duration, after, add, sub}
use gogateway.Base.Text.{Text, colon}
use gogateway.Base.Maps.{Map, lookup, insert, erase}

pub record MemoryEntry : Type 0 where
  pub count : ℤ
  pub reset_at : Time

abbrev pub Entries : Type 0
Entries = Map MemoryEntry

-- The three results of `Allow`.
pub record Verdict : Type 0 where
  pub allowed : Bool
  pub remaining : ℤ
  pub reset : Duration

unfoldable pub new_memory_limiter : Entries
new_memory_limiter = []

unfoldable pub client_key : Text → Text → Text
client_key route_id client_id = route_id ++ colon ∷ client_id

-- The entry of the current window: a new one if there is none or the window has expired.
unfoldable pub current : Duration → Time → Option MemoryEntry → MemoryEntry
current window now none = record { count = pos 0; reset_at = add now window }
current window now (some entry) =
    if after now entry.reset_at then record { count = pos 0; reset_at = add now window } else entry

unfoldable pub counted : Duration → Time → Option MemoryEntry → MemoryEntry
unfolding current
counted window now found =
    let entry = current window now found in record entry { count = incr entry.count }

unfoldable pub at_least_zero : ℤ → ℤ
at_least_zero a = if ltb_ℤ a (pos 0) then pos 0 else a

-- The answer for an entry whose count includes the request; `later` is the reading of `time.Until`.
unfoldable pub verdict : ℤ → Time → MemoryEntry → Verdict
verdict limit later entry =
    let remaining = at_least_zero (wrap64 (limit -ℤ entry.count)) in
    let reset = at_least_zero (sub entry.reset_at later) in
    if leb_ℤ entry.count limit
    then record { allowed = true; remaining = remaining; reset = reset }
    else record { allowed = false; remaining = pos 0; reset = reset }

-- `allow`, from the joined key on.
unfoldable pub allow_key : Text → ℤ → Duration → Time → Time → Entries → Entries × Verdict
allow_key key limit window now later m =
    let entry = counted window now (lookup key m) in (insert key entry m, verdict limit later entry)

unfoldable pub memory_allow : Text → Text → ℤ → Duration → Time → Time → Entries → Entries × Verdict
memory_allow route_id client_id limit window now later m =
    allow_key (client_key route_id client_id) limit window now later m

-- The loop of `cleanExpired` over the entries, with the deletions made in the map.
unfoldable pub clean_expired : Time → Entries → Entries
clean_expired now [] = []
clean_expired now ((k, v) ∷ m) =
    let rest = clean_expired now m in if after now v.reset_at then erase k rest else (k, v) ∷ rest
