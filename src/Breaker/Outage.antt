-- ===== src/Breaker/Outage.antt =====
-- An open breaker, and how it recovers: `Allow` of internal/middleware/circuitbreaker.go.
use gogateway.Base.{◌≡◌, refl, ap, ◌∙◌, Bool, true, false, List, [], ◌∷◌, map, All, arith}
use gogateway.Base.Int.{pos, ◌+ℤ◌, ◌≤ℤ◌, ◌<ℤ◌, IsInt64, incr-pos}
use gogateway.Base.Clock.{Time, le-sub_iff}
use gogateway.Breaker.{
  CircuitBreaker, state_open, state_half_open, new_circuit_breaker, allow, record_failure,
  record_success,
}
use gogateway.Breaker.History.{Call, asked, failed, succeeded, step, run}

-- What `Allow` answers along the calls.
unfoldable pub answers : List Call → CircuitBreaker → List Bool
answers [] cb = []
answers (asked now ∷ cs) cb = (allow now cb).1 ∷ answers cs (step (asked now) cb)
answers (failed now later ∷ cs) cb = answers cs (step (failed now later) cb)
answers (succeeded ∷ cs) cb = answers cs (step succeeded cb)

-- The clock is read before `t` whenever `Allow` reads it.
abbrev pub AskedBefore : Time → List Call → Type 0
AskedBefore t [] = Unit
AskedBefore t (asked now ∷ cs) = (now <ℤ t) × AskedBefore t cs
AskedBefore t (failed now later ∷ cs) = AskedBefore t cs
AskedBefore t (succeeded ∷ cs) = AskedBefore t cs

record IsOutage (t : Time) (cb : CircuitBreaker) : Type 0 where
  is_open : cb.state ≡ state_open
  until : cb.open_time +ℤ cb.config.timeout ≡ t
  fits : IsInt64 cb.config.timeout
  nonneg : pos 0 ≤ℤ cb.config.timeout

allow_waits :
    (t now : Time) (cb : CircuitBreaker) → IsOutage t cb → now <ℤ t → allow now cb ≡ (cb, false)
unfolding allow
allow_waits t now cb o early =
    let (to, from) = le-sub_iff cb.config.timeout now cb.open_time o.fits o.nonneg in ground arith

step-asked_waits :
    (t now : Time) (cb : CircuitBreaker) → IsOutage t cb → now <ℤ t → step (asked now) cb ≡ cb
unfolding step
step-asked_waits t now cb o early =
    ap (λ (r : CircuitBreaker × Bool). r.0) (allow_waits t now cb o early)

step-failed-IsOutage :
    (t now later : Time) (cb : CircuitBreaker)
    → IsOutage t cb
    → IsOutage t (step (failed now later) cb)
unfolding step
step-failed-IsOutage t now later cb o = ground arith

step-succeeded-IsOutage :
    (t : Time) (cb : CircuitBreaker) → IsOutage t cb → IsOutage t (step succeeded cb)
unfolding step
step-succeeded-IsOutage t cb o = ground arith

outage :
    (t : Time) (cs : List Call) (cb : CircuitBreaker)
    → IsOutage t cb
    → AskedBefore t cs
    → All (λ b. b ≡ false) (answers cs cb) × IsOutage t (run cs cb)
unfolding answers run
outage t [] cb o before = (tt, o)
outage t (asked now ∷ cs) cb o before =
    let (rejected, still) = outage t cs cb o before.1 in
    rw (step-asked_waits t now cb o before.0, allow_waits t now cb o before.0)
      ((refl, rejected), still)
outage t (failed now later ∷ cs) cb o before =
    outage t cs (step (failed now later) cb) (step-failed-IsOutage t now later cb o) before
outage t (succeeded ∷ cs) cb o before =
    outage t cs (step succeeded cb) (step-succeeded-IsOutage t cb o) before

-- While the clock is read before `OpenTime + Timeout`, an open breaker rejects every request and
-- stays open, to be probed at the same time, whatever failures and successes come in meanwhile.
-- The timeout is a 64-bit duration that is not negative.
pub open_rejects :
    (cb : CircuitBreaker) (cs : List Call)
    → cb.state ≡ state_open
    → IsInt64 cb.config.timeout
    → pos 0 ≤ℤ cb.config.timeout
    → AskedBefore (cb.open_time +ℤ cb.config.timeout) cs
    → All (λ b. b ≡ false) (answers cs cb)
      × (run cs cb).state ≡ state_open
      × (run cs cb).open_time +ℤ (run cs cb).config.timeout ≡ cb.open_time +ℤ cb.config.timeout
open_rejects cb cs opened fits nonneg before =
    let o : IsOutage (cb.open_time +ℤ cb.config.timeout) cb = record {
      is_open = opened;
      until = refl;
      fits = fits;
      nonneg = nonneg;
    } in
    let (rejected, still) = outage _ cs cb o before in (rejected, still.is_open, still.until)

-- From `OpenTime + Timeout` on an open breaker lets a request through as a probe. If the probe
-- succeeds the breaker is as a new one; if it fails the breaker is open again, from the time of
-- that failure on. The timeout is a 64-bit duration that is not negative.
pub probe_decides :
    (cb : CircuitBreaker) (now failing later : Time)
    → cb.state ≡ state_open
    → IsInt64 cb.config.timeout
    → pos 0 ≤ℤ cb.config.timeout
    → cb.open_time +ℤ cb.config.timeout ≤ℤ now
    → (allow now cb).1 ≡ true
      × record_success (allow now cb).0 ≡ new_circuit_breaker cb.config
      × record_failure failing later (allow now cb).0 ≡ record cb {
        state = state_open;
        failure_count = pos 1;
        last_failure = failing;
        open_time = later;
      }
unfolding allow record_success record_failure new_circuit_breaker
probe_decides cb now failing later opened fits nonneg due =
    let (to, from) = le-sub_iff cb.config.timeout now cb.open_time fits nonneg in
    (ground arith, ground arith, ground (arith, incr-pos 0))

step-asked_half_open :
    (now : Time) (cb : CircuitBreaker)
    → cb.state ≡ state_half_open
    → (allow now cb).1 ≡ true × step (asked now) cb ≡ cb
unfolding step allow
step-asked_half_open now cb half = ground arith

-- A half-open breaker admits every request, however many, until a result is recorded: the
-- configured `half_open_max_requests` has no effect.
half_open_admits_all :
    (cb : CircuitBreaker) (times : List Time)
    → cb.state ≡ state_half_open
    → All (λ b. b ≡ true) (answers (map asked times) cb) × run (map asked times) cb ≡ cb
unfolding answers run
half_open_admits_all cb [] half = (tt, refl)
half_open_admits_all cb (now ∷ times) half =
    let (admits, same) = step-asked_half_open now cb half in
    let (rest, still) = half_open_admits_all cb times half in
    ((admits, rw same rest), ap (run (map asked times)) same ∙ still)
