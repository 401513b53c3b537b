-- ===== src/Server/Export.antt =====
-- `breakerStateAdapter` of internal/server/server.go: the states of the breakers as numbers.
use gogateway.Base.Int.{ℤ, pos}
use gogateway.Base.Maps.{Map, map_values}
use gogateway.Breaker.{CircuitState, state_closed, state_open, state_half_open}
use gogateway.BreakerStore.{BreakerStore, snapshot}
use gogateway.Metrics.{set_breaker_states}
use gogateway.Server.{Outside, Server}

-- int(v): the constants are counted from 0.
unfoldable pub state_number : CircuitState → ℤ
state_number state_closed = pos 0
state_number state_open = pos 1
state_number state_half_open = pos 2

unfoldable pub breaker_states : BreakerStore → Map ℤ
breaker_states bs = map_values state_number (snapshot bs)

module _ {F : Type 0} (out : Outside F) where
  -- What the loop of the metrics does at a tick: m.SetBreakerStates(updater.BreakerStates()).
  unfoldable pub export_states : Server F → Server F
  export_states s = record s {
    metrics = set_breaker_states out.floats (breaker_states s.breaker_store) s.metrics;
  }
