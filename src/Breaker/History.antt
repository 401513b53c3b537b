-- ===== src/Breaker/History.antt =====
-- The calls that one breaker receives, in the order in which they take its mutex.
use gogateway.Base.{List, [], ◌∷◌}
use gogateway.Base.Clock.{Time}
use gogateway.Breaker.{CircuitBreaker, allow, record_failure, record_success}

pub data Call : Type 0 where
  asked : Time → Call
  failed : Time → Time → Call
  succeeded : Call

unfoldable pub step : Call → CircuitBreaker → CircuitBreaker
unfolding allow record_failure record_success
step (asked now) cb = (allow now cb).0
step (failed now later) cb = record_failure now later cb
step succeeded cb = record_success cb

unfoldable pub run : List Call → CircuitBreaker → CircuitBreaker
run [] cb = cb
run (c ∷ cs) cb = run cs (step c cb)
