-- ===== src/BreakerStore.antt =====
-- The store of circuit breakers, `BreakerStore` of internal/middleware/circuitbreaker.go. The map
-- holds pointers, and a pointer is its key here: entries are never replaced or removed.
pub mod Laws
mod Tests
use mathlib.Core.Option
use gogateway.Base.{Option, none, some, [], ◌∷◌, ◌++◌, List}
use gogateway.Base.Text.{Text, colon}
use gogateway.Base.Maps.{Map, lookup, insert, map_values}
use gogateway.Config.{CircuitBrkCfg}
use gogateway.Breaker.{CircuitState, CircuitBreaker, new_circuit_breaker}
use gogateway.Breaker.History.{Call, step}

pub record BreakerStore : Type 0 where
  pub breakers : Map CircuitBreaker

unfoldable pub new_breaker_store : BreakerStore
new_breaker_store = record { breakers = [] }

unfoldable pub breaker_key : Text → Text → Text
breaker_key route_id upstream_url = route_id ++ colon ∷ upstream_url

-- `seen` is the store under the read lock, `bs` the store when the write lock is held: other
-- requests may have created breakers between the two.
unfoldable pub get_or_create :
    Text → Text → CircuitBrkCfg → BreakerStore → BreakerStore → BreakerStore × Text
get_or_create route_id upstream_url cfg seen bs =
    let key = breaker_key route_id upstream_url in
    elim (lookup key seen.breakers) [
      | some cb ↦ (bs, key)
      | none ↦ elim (lookup key bs.breakers) [
        | some cb ↦ (bs, key)
        | none ↦ (record { breakers = insert key (new_circuit_breaker cfg) bs.breakers }, key)
      ]
    ]

-- A method call through the pointer.
unfoldable pub call_at : Text → Call → BreakerStore → BreakerStore
call_at key c bs = elim (lookup key bs.breakers) [
  | none ↦ bs
  | some cb ↦ record { breakers = insert key (step c cb) bs.breakers }
]

unfoldable pub snapshot : BreakerStore → Map CircuitState
snapshot bs = map_values (λ (cb : CircuitBreaker). cb.state) bs.breakers
