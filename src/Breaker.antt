-- ===== src/Breaker.antt =====
-- The circuit breaker, internal/middleware/circuitbreaker.go. Every method holds the breaker's
-- mutex from its first line to its last, so it is one function on the record; a reading of the
-- clock is an argument. The other values of the Go type `CircuitState` are never assigned.
pub mod History
pub mod Trip
pub mod Invariant
pub mod Outage
mod Tests
use gogateway.Base.{Bool, true, false, if◌then◌else◌}
use gogateway.Base.Int.{ℤ, pos, leb_ℤ, incr}
use gogateway.Base.Clock.{Time, zero_time, sub}
use gogateway.Config.{CircuitBrkCfg}

pub data CircuitState : Type 0 where
  state_closed state_open state_half_open : CircuitState

pub record CircuitBreaker : Type 0 where
  pub state : CircuitState
  pub failure_count : ℤ
  pub last_failure : Time
  pub open_time : Time
  pub config : CircuitBrkCfg

unfoldable pub new_circuit_breaker : CircuitBrkCfg → CircuitBreaker
new_circuit_breaker cfg = record {
  state = state_closed;
  failure_count = pos 0;
  last_failure = zero_time;
  open_time = zero_time;
  config = cfg;
}

-- `now` is the reading of `time.Since`.
unfoldable pub allow : Time → CircuitBreaker → CircuitBreaker × Bool
allow now cb = elim cb.state [
  | state_closed ↦ (cb, true)
  | state_open ↦
      if leb_ℤ cb.config.timeout (sub now cb.open_time)
      then (
        record cb { state = state_half_open; failure_count = pos 0; last_failure = zero_time },
        true,
      )
      else (cb, false)
  | state_half_open ↦ (cb, true)
]

-- `now` is read for `LastFailure`, `later` for `OpenTime`.
unfoldable pub record_failure : Time → Time → CircuitBreaker → CircuitBreaker
record_failure now later cb =
    let counted = record cb { failure_count = incr cb.failure_count; last_failure = now } in
    elim cb.state [
      | state_closed ↦
          if leb_ℤ cb.config.threshold counted.failure_count
          then record counted { state = state_open; open_time = later }
          else counted
      | state_half_open ↦ record counted { state = state_open; open_time = later }
      | state_open ↦ counted
    ]

unfoldable pub record_success : CircuitBreaker → CircuitBreaker
record_success cb = elim cb.state [
  | state_half_open ↦ record cb {
    state = state_closed;
    failure_count = pos 0;
    open_time = zero_time;
    last_failure = zero_time;
  }
  | state_closed ↦ record cb { failure_count = pos 0 }
  | state_open ↦ cb
]

unfoldable state_snapshot : CircuitBreaker → CircuitState × ℤ × Time × Time
state_snapshot cb = (cb.state, cb.failure_count, cb.last_failure, cb.open_time)
