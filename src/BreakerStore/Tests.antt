-- ===== src/BreakerStore/Tests.antt =====
-- Runs of the breaker store of internal/middleware/circuitbreaker.go.

use gogateway.Base.{◌≡◌, refl, true, [], ◌∷◌}
use gogateway.Base.Int.{pos, incr, wrap64, ◌+ℤ◌}
use gogateway.Base.Text.{text, text_eq}
use gogateway.Base.Maps.{lookup, insert, map_values}
use gogateway.Config.{CircuitBrkCfg}
use gogateway.Breaker.{state_open, new_circuit_breaker, record_failure}
use gogateway.Breaker.History.{failed, step}
use gogateway.BreakerStore.{
  BreakerStore, new_breaker_store, breaker_key, get_or_create, call_at, snapshot,
}

abbrev brk : CircuitBrkCfg
brk = record { enabled = true; threshold = pos 1; timeout = pos 10; half_open_max_reqs = pos 1 }

abbrev one_pool : BreakerStore
one_pool = record { breakers = (text "api:u1", new_circuit_breaker brk) ∷ [] }

created :
    (get_or_create (text "api") (text "u1") brk new_breaker_store new_breaker_store).0 ≡ one_pool
unfolding get_or_create lookup insert breaker_key new_breaker_store
created = refl

failing_pool :
    snapshot (call_at (text "api:u1") (failed (pos 5) (pos 6)) one_pool)
    ≡ (text "api:u1", state_open) ∷ []
unfolding snapshot call_at lookup insert map_values step record_failure text_eq incr wrap64 ◌+ℤ◌
    new_circuit_breaker
failing_pool = refl
