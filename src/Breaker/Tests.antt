-- ===== src/Breaker/Tests.antt =====
-- Runs of internal/middleware/circuitbreaker.go on concrete calls.
use gogateway.Base.{◌≡◌, refl, ◌↔◌, true, false, List, [], ◌∷◌, All, arith}
use gogateway.Base.Int.{pos, ◌+ℤ◌, incr, wrap64, ◌-ℤ◌}
use gogateway.Base.Clock.{sub, saturate}
use gogateway.Config.{CircuitBrkCfg}
use gogateway.Breaker.{
  CircuitBreaker, state_open, state_half_open, new_circuit_breaker, allow, record_failure,
  record_success,
}
use gogateway.Breaker.History.{Call, asked, failed, succeeded, step, run}
use gogateway.Breaker.Trip.{ever_open, HasBurst, opens_iff_burst}
use gogateway.Breaker.Outage.{answers, open_rejects, probe_decides}

abbrev brk : CircuitBrkCfg
brk = record { enabled = true; threshold = pos 2; timeout = pos 10; half_open_max_reqs = pos 1 }

abbrev outage : List Call
outage =
    failed (pos 100) (pos 101)
    ∷ succeeded
    ∷ failed (pos 102) (pos 103)
    ∷ asked (pos 104)
    ∷ failed (pos 105) (pos 106)
    ∷ []

outage_opens : run outage (new_circuit_breaker brk) ≡ record {
  state = state_open;
  failure_count = pos 2;
  last_failure = pos 105;
  open_time = pos 106;
  config = brk;
}
unfolding run step new_circuit_breaker incr wrap64 ◌+ℤ◌
outage_opens = refl

abbrev tripped : CircuitBreaker
tripped = record {
  state = state_open;
  failure_count = pos 2;
  last_failure = pos 105;
  open_time = pos 106;
  config = brk;
}

probing :
    answers (asked (pos 115) ∷ asked (pos 116) ∷ asked (pos 117) ∷ []) tripped
    ≡ false ∷ true ∷ true ∷ []
unfolding answers step allow sub saturate ◌-ℤ◌
probing = refl

opens_iff_burst_example : (ever_open outage (new_circuit_breaker brk) ≡ true) ↔ HasBurst 2 outage
opens_iff_burst_example = opens_iff_burst 2 brk refl (omega arith) (omega arith) outage

open_rejects_example :
    All (λ b. b ≡ false) (answers (asked (pos 110) ∷ succeeded ∷ asked (pos 115) ∷ []) tripped)
    × (run (asked (pos 110) ∷ succeeded ∷ asked (pos 115) ∷ []) tripped).state ≡ state_open
    × (run (asked (pos 110) ∷ succeeded ∷ asked (pos 115) ∷ []) tripped).open_time
        +ℤ (run (asked (pos 110) ∷ succeeded ∷ asked (pos 115) ∷ []) tripped).config.timeout
      ≡ pos 106 +ℤ pos 10
unfolding ◌+ℤ◌
open_rejects_example =
    open_rejects tripped (asked (pos 110) ∷ succeeded ∷ asked (pos 115) ∷ []) refl (omega arith)
      (omega arith) (omega arith)

probe_decides_example :
    (allow (pos 116) tripped).1 ≡ true
    × record_success (allow (pos 116) tripped).0 ≡ new_circuit_breaker brk
    × record_failure (pos 117) (pos 118) (allow (pos 116) tripped).0
      ≡ record tripped { failure_count = pos 1; last_failure = pos 117; open_time = pos 118 }
unfolding ◌+ℤ◌
probe_decides_example =
    probe_decides tripped (pos 116) (pos 117) (pos 118) refl (omega arith) (omega arith)
      (omega arith)

abbrev probed : CircuitBreaker
probed = record tripped { state = state_half_open; failure_count = pos 0; last_failure = pos 0 }
