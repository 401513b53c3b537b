-- ===== src/Server.antt =====
-- The request handler of internal/server/server.go. What it uses of other packages beside the
-- gateway's own is the record `Outside`. A request is handled in two parts, since the reverse proxy
-- takes long and other requests are handled meanwhile: `begin` up to the call of the proxy, and
-- `complete` after it. In each part the calls of the stores follow each other at once.
pub mod Recorder
pub mod Director
pub mod Authenticate
pub mod RateLimit
pub mod Handler
pub mod Start
pub mod Export
pub mod Resolved
pub mod Runs
pub mod Kept
pub mod Safety
pub mod Panics
pub mod Phases
pub mod Pieces
pub mod Active
pub mod Admits
pub mod Gate
pub mod Outcome
pub mod Answers
pub mod Refusals
pub mod Flights
pub mod Breakers
pub mod Available
pub mod Valid
pub mod Exported
pub mod LimitHeaders
pub mod Asked
pub mod Throttled
pub mod Calls
pub mod Window
pub mod Told
pub mod History
pub mod Pools
pub mod Series
pub mod Recorded
pub mod Opened
pub mod Samples
mod Tests
mod Scenarios
mod Failures
use gogateway.Base.{
  ℕ, ◌/◌, Bool, true, false, not, ◌&&◌, ◌||◌, Option, none, some, List, [], ◌∷◌, is_nil,
  if◌then◌else◌,
}
use gogateway.Base.Int.{ℤ, pos, negsuc, ◌-ℤ◌, ltb_ℤ, leb_ℤ, quot}
use gogateway.Base.Clock.{Time, Duration, add}
use gogateway.Base.Text.{Text, text}
use gogateway.Base.Decimal.{itoa}
use gogateway.Base.Maps.{Map, lookup, insert}
use gogateway.Config.{Route, Config, JwtConfig, ApiKeyConfig, AuthConfig, CircuitBrkCfg}
use gogateway.Http.{Header, get, set, Url, Request}
use gogateway.Router.{Router, match}
use gogateway.Router
use gogateway.Discovery.{StaticRegistry, get_endpoints}
use gogateway.Balancer.RoundRobin
use gogateway.Balancer.RoundRobin.{RoundRobin, next}
use gogateway.KeyStore.{ApiKey, KeyStore}
use gogateway.Auth.ApiKeys
use gogateway.Auth.ApiKeys.{Validation, valid, invalid}
use gogateway.Auth.Jwt
use gogateway.Auth.Jwt.{JwtAuth, Claims, KeyFunc, Token, forward_claims}
use gogateway.Limiter.{Entries, Verdict}
use gogateway.Limiter.Client.{adapt_request, resolve_client_id}
use gogateway.Limiter.Redis.{RunResult, limiter_allow}
use gogateway.Breaker.{CircuitBreaker, allow}
use gogateway.Breaker.History.{asked, failed, succeeded}
use gogateway.BreakerStore.{BreakerStore, get_or_create, call_at}
use gogateway.Metrics.{
  Floats, Metrics, gauge_inc, gauge_dec, record_request, record_rate_limit_rejection,
}
use gogateway.Server.Recorder.{
  ResponseWriter, StatusRecorder, new_status_recorder, status, Action, change_header, perform,
  perform_all, write_json,
}
use gogateway.Server.Director.{dynamic_director}

pub record Outside (F : Type 0) : Type 0 where
  pub floats : Floats F
  pub sha256_hex : Text → Text
  -- jwt.Parse
  pub parse_token : KeyFunc → Text → Option Token
  -- json.Marshal of claims
  pub claims_json : Claims → Option Text
  -- target.String()
  pub url_string : Url → Text

-- The fields that `serveRoute` uses. The map of balancers holds pointers; an entry that is missing
-- is a nil `Balancer`.
pub record Server (F : Type 0) : Type 0 where
  pub router : Router
  pub registry : StaticRegistry
  pub balancers : Map RoundRobin
  pub jwt_auth : JwtAuth
  pub key_store : KeyStore
  pub rate_limiter : Entries
  pub breaker_store : BreakerStore
  pub metrics : Metrics F

-- What Redis answers to a request, if there is a client, and the readings of the clock: in
-- `memoryLimiter.allow`, for the reset header, and in `Allow` of the breaker.
pub record Readings : Type 0 where
  pub redis : Option (Text → ℤ → ℤ → RunResult)
  pub limiter_now : Time
  pub limiter_later : Time
  pub reset_now : Time
  pub breaker_now : Time

-- The readings after the proxy: in `RecordFailure`, and `time.Since(start)`.
pub record LateReadings : Type 0 where
  pub failure_now : Time
  pub failure_later : Time
  pub elapsed : Duration

-- Whole seconds since 1970. `Time` counts from the year 1.
unfoldable pub unix : Time → ℤ
unix (pos n) = quot (pos n) 1000000000 -ℤ pos 62135596800
unix (negsuc n) = negsuc (n / 1000000000) -ℤ pos 62135596800
