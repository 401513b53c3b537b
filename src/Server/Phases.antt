-- ===== src/Server/Phases.antt =====
-- `serveRoute` of internal/server/server.go in pieces, between which other goroutines may come: the
-- calls of the gauge, the authentication, the limiter with its round trip to Redis, the choice of the
-- upstream, the proxy, and the two calls of the deferred function. `begin`, `complete` and `settle` of
-- Server.Handler are several of these pieces at once. Where a piece makes several calls that lock,
-- none of them touches the gauge.
use gogateway.Base.{ℕ, ◌+◌, ◌<◌, Option, none, some, List, [], ◌∷◌, ◌++◌, if◌then◌else◌}
use gogateway.Base.Int.{pos}
use gogateway.Base.Clock.{Time}
use gogateway.Base.Text.{Text, text}
use gogateway.Base.Decimal.{itoa}
use gogateway.Config.{Route}
use gogateway.Http.{Header, Request}
use gogateway.Router.{match}
use gogateway.Limiter.{clean_expired}
use gogateway.Metrics.{record_request}
use gogateway.Server.{Outside, Server, Readings, LateReadings}
use gogateway.Server.Recorder.{StatusRecorder, new_status_recorder, status, perform_all, write_json}
use gogateway.Server.Authenticate.{authenticate}
use gogateway.Server.RateLimit.{check_rate_limit}
use gogateway.Server.Export.{export_states}
use gogateway.Server.Handler.{
  InFlight, Admission, answered, panicked, forwarded, ProxyRun, resolve, count_in, count_out,
  route_label, tell_breaker,
}
use gogateway.Server.Runs.{new_writer, two53}

-- Where a request is: counted in, past its authentication, within its limit, with the proxy, on its
-- way out, counted out, and recorded.
pub data Phase : Type 0 where
  arrived : Request → StatusRecorder → Phase
  authenticated within : Route → Request → StatusRecorder → Phase
  flying : InFlight → Phase
  leaving counted_out : Option Route → Text → StatusRecorder → Phase
  gone : Phase

-- What follows the choice of an upstream.
abbrev pub phase_of : Route → Text → Admission → Phase
phase_of route method (answered w) = leaving (some route) method w
phase_of route method (panicked w) = leaving (some route) method w
phase_of route method (forwarded f) = flying f

module _ {F : Type 0} (out : Outside F) (rd : Readings) (late : LateReadings)
    (proxied : ProxyRun) where
  -- The next piece of `serveRoute`. `proxied` is what the proxy does with the request.
  unfoldable pub advance : Phase → Server F → Server F × Phase
  advance (arrived r w) s = elim (match s.router r) [
    | none ↦ (
      s,
      leaving none r.method (
          write_json (pos 404)
            (record { error = text "no route matched"; code = text "ROUTE_NOT_FOUND" }) w),
    )
    | some route ↦
        let checked = authenticate out s route r w in
        (
          s,
          if checked.passed
              then authenticated route checked.request checked.recorder
              else leaving (some route) r.method checked.recorder,
        )
  ]
  advance (authenticated route r w) s =
      let (limited, w', passes) = check_rate_limit out rd route r w s in
      (limited, if passes then within route r w' else leaving (some route) r.method w')
  advance (within route r w) s =
      let (resolved, admission) = resolve out rd route r w s in
      (resolved, phase_of route r.method admission)
  advance (flying f) s =
      let w = perform_all proxied.actions f.recorder in
      (
        if proxied.aborted then s else tell_breaker out f.route f.target late (status w) s,
        leaving (some f.route) f.request.method w,
      )
  advance (leaving route method w) s = (count_out out s, counted_out route method w)
  advance (counted_out route method w) s = (
    record s {
      metrics =
          record_request out.floats (route_label route) method (itoa (status w)) late.elapsed
            s.metrics;
    },
    gone,
  )
  advance gone s = (s, gone)

pub record Phases (F : Type 0) : Type 0 where
  pub server : Server F
  pub requests : List Phase

-- The requests between the two calls of the gauge.
abbrev pub weight : Phase → ℕ
weight (arrived r w) = 1
weight (authenticated route r w) = 1
weight (within route r w) = 1
weight (flying f) = 1
weight (leaving route method w) = 1
weight (counted_out route method w) = 0
weight gone = 0

abbrev pub being_served : List Phase → ℕ
being_served [] = 0
being_served (p ∷ ps) = weight p + being_served ps

module _ {F : Type 0} (out : Outside F) where
  pub data Move : Phases F → Phases F → Type 0 where
    arrives :
        {s : Server F} {ps : List Phase} (r : Request) (h : Header)
        → Move
            (record { server = s; requests = ps })
            (record {
              server = count_in out s;
              requests = arrived r (new_status_recorder (new_writer h)) ∷ ps;
            })
    advances :
        {s : Server F} (before after : List Phase) (p : Phase) (rd : Readings) (late : LateReadings)
        (proxied : ProxyRun)
        → Move
            (record { server = s; requests = before ++ p ∷ after })
            (record {
              server = (advance out rd late proxied p s).0;
              requests = before ++ (advance out rd late proxied p s).1 ∷ after;
            })
    sweeps :
        {s : Server F} {ps : List Phase} (now : Time)
        → Move
            (record { server = s; requests = ps })
            (record {
              server = record s { rate_limiter = clean_expired now s.rate_limiter };
              requests = ps;
            })
    exports :
        {s : Server F} {ps : List Phase}
        → Move
            (record { server = s; requests = ps })
            (record { server = export_states out s; requests = ps })

  -- What a server without requests comes to, with fewer than 2 ^ 53 requests served at a time.
  pub data Moves (start : Server F) : Phases F → Type 0 where
    started : Moves start (record { server = start; requests = [] })
    continued :
        {st st' : Phases F}
        → Moves start st
        → being_served st.requests < two53
        → Move st st'
        → Moves start st'
