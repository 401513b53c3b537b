-- ===== src/Server/Failures.antt =====
-- A request whose upstream fails, internal/server/server.go.
use gogateway.Base.{ℕ, ◌≡◌, ◌⊎◌, refl, false, none, some, [], ◌∷◌, arith}
use gogateway.Base.Int.{pos, incr, wrap64, ◌+ℤ◌}
use gogateway.Base.Text.{text, text_eq, has_prefix, has_suffix}
use gogateway.Base.Maps.{lookup, insert}
use gogateway.Config.{CircuitBrkCfg}
use gogateway.Router.{match, match_route, match_path, contains}
use gogateway.Discovery.{get_endpoints}
use gogateway.Balancer.RoundRobin.{next}
use gogateway.Breaker.{CircuitBreaker, state_open, allow, record_failure, new_circuit_breaker}
use gogateway.Breaker.Trip.{HasBurst}
use gogateway.BreakerStore.{breaker_key, get_or_create, call_at}
use gogateway.Server.Authenticate.{authenticate}
use gogateway.Server.RateLimit.{check_rate_limit, limit_by}
use gogateway.Breaker.History.{step, run}
use gogateway.Server.Recorder.{
  send_code, perform, perform_all, write_header, status, new_status_recorder,
}
use gogateway.Server.Handler.{
  ProxyRun, begin, handle, resolve, pick, admit, enabled_breaker, allow_at, settle, tell_breaker,
  complete, route_label,
}
use gogateway.Server.Runs.{State, Reachable, continued, returns}
use gogateway.Metrics.Counts.{same_labels, value_of}
use gogateway.Base.Decimal.{itoa, digits}
use gogateway.Server.Recorded.{value_of-ended_requests}
use gogateway.Server.Opened.{open-HasBurst}
use gogateway.Server.Pools.{pool_calls, pool-HasRun}
use gogateway.Server.Samples.{
  out, parse_url, unmarshal_keys, cfg, around, start, late, flying, after_begin, breakers, Anything,
  made, reached,
}

abbrev bad_gateway : ProxyRun
bad_gateway = record { actions = send_code (pos 502) ∷ []; aborted = false }

abbrev after_failure : State ℕ
after_failure = record {
  server = (complete out late flying bad_gateway after_begin).0;
  in_flight = [];
}

abbrev failed_once : Reachable out Anything start after_failure
failed_once = continued (reached Anything) (omega arith) (returns [] [] late flying bad_gateway tt)

pool-HasRun_example :
    let calls = pool_calls out (text "users:u1") failed_once in
    ((lookup (text "users:u1") after_failure.server.breaker_store.breakers ≡ none) × (calls ≡ []))
    ⊎ ((brk : CircuitBrkCfg) × (lookup (text "users:u1") after_failure.server.breaker_store.breakers
          ≡ some (run calls (new_circuit_breaker brk))))
pool-HasRun_example =
    pool-HasRun out parse_url unmarshal_keys cfg around Anything start after_failure
      (text "users:u1") failed_once made

abbrev tripped : CircuitBreaker
tripped = record {
  state = state_open;
  failure_count = pos 1;
  last_failure = pos 1;
  open_time = pos 2;
  config = breakers;
}

trips : lookup (text "users:u1") after_failure.server.breaker_store.breakers ≡ some tripped
unfolding complete settle tell_breaker perform_all perform write_header status begin match
    match_route match_path contains text_eq has_suffix has_prefix handle authenticate
    check_rate_limit limit_by resolve get_endpoints pick lookup next admit enabled_breaker
    get_or_create breaker_key allow_at insert allow new_circuit_breaker new_status_recorder call_at
    step record_failure incr wrap64 ◌+ℤ◌
trips = refl

open-HasBurst_example : HasBurst 1 (pool_calls out (text "users:u1") failed_once)
open-HasBurst_example =
    open-HasBurst out parse_url unmarshal_keys cfg around Anything start after_failure
      (text "users:u1") failed_once tripped 1 made trips refl refl (omega arith) (omega arith)

value_of-ended_requests_example :
    value_of out.floats
      (text "users" ∷ text "GET" ∷ text "502" ∷ [])
      after_failure.server.metrics.requests_total
    ≡ 1
unfolding same_labels route_label text_eq itoa digits status perform_all perform write_header
    new_status_recorder
value_of-ended_requests_example =
    value_of-ended_requests out parse_url unmarshal_keys cfg around Anything start after_failure
      (text "users") (text "GET") (text "502") failed_once made ((refl, (refl, (refl, tt))), tt)
      (refl, (refl, (refl, tt)))
