-- ===== src/Program/Loop.antt =====
-- The goroutines that run beside the handler: `RunBreakerStateLoop` of
-- internal/metrics/prometheus.go and the one of `StartCleanup` of internal/middleware/ratelimit.go.
use gogateway.Base.{◌≡◌, refl, ap, ◌∙◌, Bool, true, false, List, [], ◌∷◌, ◌++◌, map}
use gogateway.Base.Int.{ℤ}
use gogateway.Base.Clock.{Time}
use gogateway.Base.Text.{Text}
use gogateway.Base.Maps.{Map}
use gogateway.Limiter.{Entries, clean_expired}
use gogateway.Metrics.{
  Floats, Metrics, GaugeVec, gauge_vec_set, gauge_vec_reset, set_states, set_breaker_states,
}

-- Why the `select` goes on: the ticker fired, and `BreakerStates` then gave this, or the channel is
-- closed.
pub data Wakeup : Type 0 where
  ticked : Map ℤ → Wakeup
  stopped : Wakeup

module _ {F : Type 0} (floats : Floats F) where
  -- The second result tells whether the loop has returned.
  unfoldable pub run_breaker_state_loop : List Wakeup → Metrics F → Metrics F × Bool
  run_breaker_state_loop [] m = (m, false)
  run_breaker_state_loop (ticked snapshot ∷ wakeups) m =
      run_breaker_state_loop wakeups (set_breaker_states floats snapshot m)
  run_breaker_state_loop (stopped ∷ wakeups) m = (m, true)

  -- What is exported when the last of the snapshots was.
  abbrev exported : List (Map ℤ) → Metrics F → Metrics F
  exported [] m = m
  exported (snapshot ∷ []) m = set_breaker_states floats snapshot m
  exported (snapshot ∷ other ∷ snapshots) m = exported (other ∷ snapshots) m

  names-set_states :
      (snapshot : Map ℤ) (v : GaugeVec F) → (set_states floats snapshot v).names ≡ v.names
  unfolding set_states gauge_vec_set
  names-set_states [] v = refl
  names-set_states ((key, state) ∷ snapshot) v = names-set_states snapshot _

  -- An export forgets the one before it.
  set_breaker_states-forgets :
      (old new : Map ℤ) (m : Metrics F)
      → set_breaker_states floats new (set_breaker_states floats old m)
        ≡ set_breaker_states floats new m
  unfolding set_breaker_states gauge_vec_reset
  set_breaker_states-forgets old new m =
      ap
        (λ (names : List Text). record m {
          circuit_breaker_state = set_states floats new (record { values = []; names = names });
        })
        (names-set_states old (gauge_vec_reset m.circuit_breaker_state))

  exported-forgets :
      (snapshot other : Map ℤ) (snapshots : List (Map ℤ)) (m : Metrics F)
      → exported (other ∷ snapshots) (set_breaker_states floats snapshot m)
        ≡ exported (other ∷ snapshots) m
  exported-forgets snapshot other [] m = set_breaker_states-forgets snapshot other m
  exported-forgets snapshot other (next ∷ snapshots) m = exported-forgets snapshot next snapshots m

  -- Whatever woke it before, the loop returns when the channel is closed, and the gauges of the
  -- breakers are then those of its last export; what comes after changes nothing.
  pub run_breaker_state_loop-stopped :
      (snapshots : List (Map ℤ)) (after : List Wakeup) (m : Metrics F)
      → run_breaker_state_loop (map ticked snapshots ++ stopped ∷ after) m
        ≡ (exported snapshots m, true)
  unfolding run_breaker_state_loop
  run_breaker_state_loop-stopped [] after m = refl
  run_breaker_state_loop-stopped (snapshot ∷ []) after m = refl
  run_breaker_state_loop-stopped (snapshot ∷ other ∷ snapshots) after m =
      run_breaker_state_loop-stopped (other ∷ snapshots) after _
      ∙ ap (λ (m' : Metrics F). (m', true)) (exported-forgets snapshot other snapshots m)

-- The loop over the ticks of the clean-up, which never ends.
unfoldable pub start_cleanup : List Time → Entries → Entries
start_cleanup [] m = m
start_cleanup (now ∷ ticks) m = start_cleanup ticks (clean_expired now m)
