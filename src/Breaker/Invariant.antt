-- ===== src/Breaker/Invariant.antt =====
-- What holds of a breaker between two calls, internal/middleware/circuitbreaker.go.
use gogateway.Base.{◌≡◌, ◌⊎◌, List, [], ◌∷◌, arith}
use gogateway.Base.Int.{ℤ, pos, ◌≤ℤ◌, ◌<ℤ◌, IsInt64, incr, wrap64-IsInt64, incr_exact, +ℤ_parts}
use gogateway.Base.Clock.{zero_time}
use gogateway.Config.{CircuitBrkCfg}
use gogateway.Breaker.{CircuitBreaker, state_closed, state_half_open, new_circuit_breaker}
use gogateway.Breaker.History.{Call, asked, failed, succeeded, step, run}

pub record IsValid (cb : CircuitBreaker) : Type 0 where
  pub threshold_fits : IsInt64 cb.config.threshold
  pub count_fits : IsInt64 cb.failure_count
  pub closed_below :
      cb.state ≡ state_closed
      → (cb.failure_count ≡ pos 0)
        ⊎ ((pos 0 ≤ℤ cb.failure_count) × (cb.failure_count <ℤ cb.config.threshold))
  pub closed_unopened : cb.state ≡ state_closed → cb.open_time ≡ zero_time
  pub half_open_fresh :
      cb.state ≡ state_half_open → (cb.failure_count ≡ pos 0) × (cb.last_failure ≡ zero_time)

pub new-IsValid : (cfg : CircuitBrkCfg) → IsInt64 cfg.threshold → IsValid (new_circuit_breaker cfg)
unfolding new_circuit_breaker
new-IsValid cfg h = ground arith

incr-IsInt64 : (a : ℤ) → IsInt64 (incr a)
unfolding incr
incr-IsInt64 a = wrap64-IsInt64 _

pub step-IsValid : (c : Call) (cb : CircuitBreaker) → IsValid cb → IsValid (step c cb)
unfolding step
step-IsValid (asked now) cb v = ground arith
step-IsValid (failed now later) cb v = ground (
  arith,
  incr-IsInt64 cb.failure_count,
  incr_exact cb.failure_count,
  +ℤ_parts cb.failure_count (pos 1),
)
step-IsValid succeeded cb v = ground arith

run-IsValid : (cs : List Call) (cb : CircuitBreaker) → IsValid cb → IsValid (run cs cb)
unfolding run
run-IsValid [] cb v = v
run-IsValid (c ∷ cs) cb v = run-IsValid cs (step c cb) (step-IsValid c cb v)

-- Whatever calls a new breaker receives, in whatever order: a closed breaker counts fewer failures
-- than its threshold (or none) and has no opening time, a half-open one has no failure on record,
-- and the counter stays a 64-bit integer. The threshold is one, as the Go type has it.
run-new-IsValid :
    (cfg : CircuitBrkCfg) (cs : List Call)
    → IsInt64 cfg.threshold
    → IsValid (run cs (new_circuit_breaker cfg))
run-new-IsValid cfg cs h = run-IsValid cs (new_circuit_breaker cfg) (new-IsValid cfg h)
