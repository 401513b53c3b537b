-- ===== src/Server/Scenarios.antt =====
-- More requests to the server of Server.Samples, internal/server/server.go.
use gogateway.Base.{ℕ, ◌≤◌, ◌≡◌, refl, true, false, some, [], ◌∷◌, inl, arith}
use gogateway.Base.Clock.{sub, saturate}
use gogateway.Base.Int.{wrap64, ◌+ℤ◌, ◌-ℤ◌, incr, pos, IsInt64}
use gogateway.Base.Text.{text, text_eq, has_prefix, has_suffix}
use gogateway.Base.Maps.{lookup, insert}
use gogateway.Config.{Route, RateLimitCfg}
use gogateway.Router.{match, match_route, match_path, contains}
use gogateway.Discovery.{get_endpoints}
use gogateway.Balancer.RoundRobin.{next}
use gogateway.Breaker.{CircuitBreaker, state_open, allow, new_circuit_breaker}
use gogateway.Breaker.History.{step}
use gogateway.Breaker.Invariant.{IsValid}
use gogateway.BreakerStore.{breaker_key, get_or_create, call_at}
use gogateway.Limiter.{
  Verdict, memory_allow, allow_key, counted, current, verdict, at_least_zero, client_key,
}
use gogateway.Limiter.Client.{resolve_client_id}
use gogateway.Limiter.Redis.{limiter_allow, redis_answer}
use gogateway.Limiter.Sweep.{request}
use gogateway.Server.{Server}
use gogateway.Server.Recorder.{new_status_recorder, perform_all}
use gogateway.Server.Authenticate.{authenticate}
use gogateway.Server.RateLimit.{
  ask_limiter, limit_headers, check_rate_limit, limit_by, report_limit,
}
use gogateway.Server.Handler.{
  InFlight, forwarded, begin, handle, resolve, pick, admit, enabled_breaker, allow_at,
}
use gogateway.Server.Runs.{Reachable, started, continued, starts, new_writer}
use gogateway.Server.Calls.{run_calls}
use gogateway.Server.Window.{forwards_of, forwards_of-le-limit}
use gogateway.Server.Export.{export_states}
use gogateway.Server.Available.{NoServerErrors, begin-forwards}
use gogateway.Server.Valid.{breakers-IsValid}
use gogateway.Server.Exported.{gauge_key, Exports, lookup-export_states}
use gogateway.Server.Samples.{
  out, parse_url, unmarshal_keys, breakers, users, cfg, around, start, rd, asking, writer,
  after_begin, one_flying, Anything, made, users-IsUsable, reached,
}

routed : match after_begin.router asking ≡ some users
unfolding begin match match_route match_path contains text_eq has_suffix has_prefix handle
    authenticate check_rate_limit limit_by resolve get_endpoints pick lookup next admit
    enabled_breaker get_or_create breaker_key allow_at insert allow new_circuit_breaker
    new_status_recorder
routed = refl

begin-forwards_example :
    (f : InFlight) × ((begin out rd asking (new_writer []) after_begin).1 ≡ forwarded f)
unfolding check_rate_limit limit_by
begin-forwards_example =
    begin-forwards out parse_url unmarshal_keys cfg around start one_flying rd asking [] users
      (users-IsUsable, tt) made (reached NoServerErrors) routed (inl refl) refl

known :
    lookup (text "users:u1") after_begin.breaker_store.breakers
    ≡ some (new_circuit_breaker breakers)
unfolding begin match match_route match_path contains text_eq has_suffix has_prefix handle
    authenticate check_rate_limit limit_by resolve get_endpoints pick lookup next admit
    enabled_breaker get_or_create breaker_key allow_at insert allow new_circuit_breaker
    new_status_recorder call_at step
known = refl

fits : IsInt64 (new_circuit_breaker breakers).config.threshold
unfolding new_circuit_breaker
fits = ground arith

breakers-IsValid_example : IsValid (new_circuit_breaker breakers)
breakers-IsValid_example =
    breakers-IsValid out parse_url unmarshal_keys cfg around Anything start one_flying
      (text "users:u1") (new_circuit_breaker breakers) made (reached Anything) known fits

abbrev opened : CircuitBreaker
opened = record (new_circuit_breaker breakers) { state = state_open; open_time = pos 7 }

abbrev with_breaker : Server ℕ
with_breaker = record start { breaker_store = record { breakers = (text "users:u1", opened) ∷ [] } }

lookup-export_states_example : Exports out.floats (some opened) (
    lookup
      (gauge_key (text "users:u1"))
      (export_states out with_breaker).metrics.circuit_breaker_state.values)
unfolding lookup text_eq
lookup-export_states_example = lookup-export_states out (text "users:u1") with_breaker (refl, tt)

abbrev ten : RateLimitCfg
ten = record { enabled = true; requests = pos 10; window = pos 60; per_client = true }

abbrev over : Verdict
over = record { allowed = false; remaining = pos 0; reset = pos 2500000000 }

-- The route with a limit of one request in 60 nanoseconds.
abbrev one_each : RateLimitCfg
one_each = record { enabled = true; requests = pos 1; window = pos 60; per_client = false }

abbrev limited_users : Route
limited_users = record users { rate_limit = some one_each }

abbrev limited_start : Server ℕ
limited_start = record start { router = record { routes = limited_users ∷ [] } }

abbrev first_request : InFlight
first_request = record {
  route = limited_users;
  target = record { scheme = text "http"; host = text "u1"; path = []; raw_query = [] };
  request = asking;
  recorder =
      perform_all
        (limit_headers one_each (record { allowed = true; remaining = pos 0; reset = pos 60 })
          (pos 0))
        (record { response_writer = writer; status_code = pos 0; wrote_header = false });
}

let_through : (begin out rd asking (new_writer []) limited_start).1 ≡ forwarded first_request
unfolding begin match match_route match_path contains text_eq has_suffix has_prefix handle
    authenticate check_rate_limit limit_by report_limit ask_limiter limiter_allow redis_answer
    memory_allow allow_key counted current verdict at_least_zero sub incr client_key
    resolve_client_id resolve get_endpoints pick lookup next admit enabled_breaker get_or_create
    breaker_key allow_at insert allow new_circuit_breaker new_status_recorder wrap64 ◌+ℤ◌ ◌-ℤ◌
    saturate
let_through = refl

abbrev one_run : Reachable out Anything limited_start (record {
  server = (begin out rd asking (new_writer []) limited_start).0;
  in_flight = first_request ∷ [];
})
one_run = continued started (omega arith) (starts rd asking [] first_request starting)
  where
    starting :
        begin out rd asking (new_writer []) limited_start
        ≡ ((begin out rd asking (new_writer []) limited_start).0, forwarded first_request)
    starting = λ i. ((begin out rd asking (new_writer []) limited_start).0, let_through i)

one_call :
    run_calls out one_run ≡ request (text "users:users") (pos 1) (pos 60) (pos 0) (pos 0) ∷ []
unfolding match match_route match_path contains text_eq has_suffix has_prefix authenticate
    redis_answer client_key resolve_client_id
one_call = refl

forwards_of-le-limit_example : forwards_of out (text "users:users") one_run ≤ 1
unfolding lookup redis_answer
forwards_of-le-limit_example =
    forwards_of-le-limit out limited_start
      (record {
        server = (begin out rd asking (new_writer []) limited_start).0;
        in_flight = first_request ∷ [];
      })
      one_run (text "users:users") 1 (pos 60) (pos 0) (pos 0) [] one_call
      (tt, λ same. (one_each, refl, refl, refl)) refl tt (omega arith)
