-- ===== src/Server/Handler.antt =====
-- `serveRoute` of internal/server/server.go. What is deferred in it is `settle`, which also runs
-- when a panic ends the function.
use gogateway.Base.{Bool, true, Option, none, some, List, is_nil, if◌then◌else◌}
use gogateway.Base.Int.{ℤ, pos, ltb_ℤ, leb_ℤ}
use gogateway.Base.Clock.{Time}
use gogateway.Base.Text.{Text, text}
use gogateway.Base.Decimal.{itoa}
use gogateway.Base.Maps.{lookup, insert}
use gogateway.Config.{Route, CircuitBrkCfg}
use gogateway.Http.{Url, Request}
use gogateway.Router.{match}
use gogateway.Discovery.{get_endpoints}
use gogateway.Balancer.RoundRobin.{next}
use gogateway.Breaker.{allow}
use gogateway.Breaker.History.{asked, failed, succeeded}
use gogateway.BreakerStore.{BreakerStore, get_or_create, call_at}
use gogateway.Metrics.{gauge_inc, gauge_dec, record_request}
use gogateway.Server.{Outside, Server, Readings, LateReadings}
use gogateway.Server.Recorder.{
  ResponseWriter, StatusRecorder, new_status_recorder, status, Action, perform_all, write_json,
}
use gogateway.Server.Director.{dynamic_director}
use gogateway.Server.Authenticate.{authenticate}
use gogateway.Server.RateLimit.{check_rate_limit}

unfoldable pub route_label : Option Route → Text
route_label none = text "unknown"
route_label (some route) = route.id

-- `*route.CircuitBreaker`, if there is one and it is enabled.
unfoldable pub enabled_breaker : Route → Option CircuitBrkCfg
enabled_breaker route = elim route.circuit_breaker [
  | none ↦ none
  | some cfg ↦ if cfg.enabled then some cfg else none
]

-- A request that is with the reverse proxy.
pub record InFlight : Type 0 where
  pub route : Route
  pub target : Url
  pub request : Request
  pub recorder : StatusRecorder

-- How the function goes on after the checks: it has answered, it panics, or it calls the proxy.
pub data Admission : Type 0 where
  answered panicked : StatusRecorder → Admission
  forwarded : InFlight → Admission

-- What the reverse proxy does with the response, and whether it then panics, as it does when the
-- upstream breaks off in the middle of a body.
pub record ProxyRun : Type 0 where
  pub actions : List Action
  pub aborted : Bool

unfoldable pub no_upstream : StatusRecorder → StatusRecorder
no_upstream w =
    write_json (pos 503)
      (record { error = text "no upstream available"; code = text "NO_UPSTREAM" }) w

unfoldable pub circuit_open : StatusRecorder → StatusRecorder
circuit_open w =
    write_json (pos 503)
      (record { error = text "upstream circuit breaker open"; code = text "CIRCUIT_OPEN" }) w

-- `breaker.Allow()` through a pointer of the store.
unfoldable pub allow_at : Text → Time → BreakerStore → Bool
allow_at key now bs = elim (lookup key bs.breakers) [ none ↦ true | some cb ↦ (allow now cb).1 ]

module _ {F : Type 0} (out : Outside F) where
  -- The breaker of the upstream is asked; this is the last of the checks.
  unfoldable pub admit :
      Readings → Route → Url → Request → StatusRecorder → Server F → Server F × Admission
  admit rd route target r w s =
      let go = forwarded (record { route = route; target = target; request = r; recorder = w }) in
      elim (enabled_breaker route) [
        | none ↦ (s, go)
        | some cfg ↦
            let (bs, key) =
              get_or_create route.id (out.url_string target) cfg s.breaker_store s.breaker_store in
            let asked_store = record s { breaker_store = call_at key (asked rd.breaker_now) bs } in
            if allow_at key rd.breaker_now bs
            then (asked_store, go)
            else (asked_store, answered (circuit_open w))
      ]

  -- The balancer picks an endpoint.
  unfoldable pub pick :
      Readings → Route → List Url → Request → StatusRecorder → Server F → Server F × Admission
  pick rd route endpoints r w s = elim (lookup route.id s.balancers) [
    | none ↦ (s, panicked w)
    | some lb ↦ elim (next endpoints lb) [
      | none ↦ (s, panicked w)
      | some (target, lb') ↦
          admit rd route target r w (record s { balancers = insert route.id lb' s.balancers })
    ]
  ]

  unfoldable pub resolve :
      Readings → Route → Request → StatusRecorder → Server F → Server F × Admission
  resolve rd route r w s = elim (get_endpoints route.id s.registry) [
    | none ↦ (s, answered (no_upstream w))
    | some endpoints ↦
        let picked = pick rd route endpoints r w s in
        if is_nil endpoints then (s, answered (no_upstream w)) else picked
  ]

  unfoldable pub handle :
      Readings → Route → Request → StatusRecorder → Server F → Server F × Admission
  handle rd route r w s =
      let checked = authenticate out s route r w in
      let (limited, w', within) =
        check_rate_limit out rd route checked.request checked.recorder s in
      let resolved = resolve rd route checked.request w' limited in
      if checked.passed
      then if within then resolved else (limited, answered w')
      else (s, answered checked.recorder)

  -- s.metrics.ActiveConnections.Inc() and Dec()
  abbrev pub count_in : Server F → Server F
  count_in s = record s {
    metrics = record s.metrics {
      active_connections = gauge_inc out.floats s.metrics.active_connections;
    };
  }

  abbrev pub count_out : Server F → Server F
  count_out s = record s {
    metrics = record s.metrics {
      active_connections = gauge_dec out.floats s.metrics.active_connections;
    };
  }

  -- From the start to the call of the proxy.
  unfoldable pub begin : Readings → Request → ResponseWriter → Server F → Server F × Admission
  begin rd r writer s =
      let w = new_status_recorder writer in
      let counted = count_in s in
      elim (match s.router r) [
        | none ↦ (
          counted,
          answered (
              write_json (pos 404)
                (record { error = text "no route matched"; code = text "ROUTE_NOT_FOUND" }) w),
        )
        | some route ↦ handle rd route r w counted
      ]

  -- The deferred function.
  unfoldable pub settle : Option Route → Text → LateReadings → StatusRecorder → Server F → Server F
  settle route method late w s =
      let counted = count_out s in
      record counted {
        metrics =
            record_request out.floats (route_label route) method (itoa (status w)) late.elapsed
              counted.metrics;
      }

  -- The result of the call is told to the breaker.
  unfoldable pub tell_breaker : Route → Url → LateReadings → ℤ → Server F → Server F
  tell_breaker route target late code s = elim (enabled_breaker route) [
    | none ↦ s
    | some cfg ↦
        let (bs, key) =
          get_or_create route.id (out.url_string target) cfg s.breaker_store s.breaker_store in
        record s {
          breaker_store =
              if leb_ℤ (pos 500) code
              then call_at key (failed late.failure_now late.failure_later) bs
              else if ltb_ℤ (pos 0) code
              then call_at key succeeded bs
              else bs;
        }
  ]

  -- From the return of the proxy to the end. After a panic only what is deferred happens.
  unfoldable pub complete :
      LateReadings → InFlight → ProxyRun → Server F → Server F × StatusRecorder
  complete late f run s =
      let w = perform_all run.actions f.recorder in
      let told = if run.aborted then s else tell_breaker f.route f.target late (status w) s in
      (settle (some f.route) f.request.method late w told, w)

  -- A whole request that no other interrupts; `proxy` gets the request that the director made.
  unfoldable pub serve_route :
      Readings
      → LateReadings
      → (Request → ProxyRun)
      → Request
      → ResponseWriter
      → Server F
      → Server F × StatusRecorder
  serve_route rd late proxy r writer s =
      let (begun, admission) = begin rd r writer s in
      let done : StatusRecorder → Server F × StatusRecorder =
        λ w. (settle (match s.router r) r.method late w begun, w) in
      elim admission [
        | answered w ↦ done w
        | panicked w ↦ done w
        | forwarded f ↦ complete late f (proxy (dynamic_director (some f.target) f.request)) begun
      ]
