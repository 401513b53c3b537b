-- ===== src/Server/Series.antt =====
-- What of internal/server/server.go leaves the counters and the histograms of the requests as they
-- are.
use gogateway.Base.{◌≡◌, refl, ◌∙◌, Option, none, some, Bool-cases, Option-cases, inl, inr}
use gogateway.Base.Int.{ℤ}
use gogateway.Config.{Route, RateLimitCfg}
use gogateway.Http.{Url, Request}
use gogateway.Router.{match}
use gogateway.Limiter.{Verdict}
use gogateway.Metrics.{Metrics, CounterVec, HistogramVec, record_rate_limit_rejection}
use gogateway.Server.{Outside, Server, Readings, LateReadings}
use gogateway.Server.Recorder.{StatusRecorder, ResponseWriter, new_status_recorder}
use gogateway.Server.Authenticate.{authenticate}
use gogateway.Server.RateLimit.{report_limit, limit_by, check_rate_limit}
use gogateway.Server.Resolved.{
  Resolved, unavailable, no_pick, unguarded, goes_on, turned_away, resolve-Resolved,
}
use gogateway.Server.Handler.{Admission, enabled_breaker, handle, begin, tell_breaker}

module _ {F : Type 0} where
  -- The counters and the histograms of the requests.
  abbrev pub series : Metrics F → CounterVec F × HistogramVec F
  series m = (m.requests_total, m.request_duration)

module _ {F : Type 0} (out : Outside F) where
  module _ (rd : Readings) (route : Route) where
    report_limit-series :
        (lim : RateLimitCfg) (v : Verdict) (w : StatusRecorder) (s : Server F)
        → series (report_limit out rd route lim v w s).0.metrics ≡ series s.metrics
    unfolding report_limit record_rate_limit_rejection
    report_limit-series lim v w s = elim (Bool-cases v.allowed) [
      | inl allowed ↦ rw allowed refl
      | inr denied ↦ rw denied refl
    ]

    limit_by-series :
        (o : Option RateLimitCfg) (r : Request) (w : StatusRecorder) (s : Server F)
        → series (limit_by out o rd route r w s).0.metrics ≡ series s.metrics
    unfolding limit_by
    limit_by-series none r w s = refl
    limit_by-series (some lim) r w s = elim (Bool-cases lim.enabled) [
      | inl on ↦ simp on (report_limit-series lim _ w _)
      | inr off ↦ rw off refl
    ]

    Resolved-series :
        (r : Request) (w : StatusRecorder) (s : Server F) (t : Server F × Admission)
        → Resolved out rd route r w s t
        → series t.0.metrics ≡ series s.metrics
    Resolved-series r w s _ unavailable = refl
    Resolved-series r w s _ no_pick = refl
    Resolved-series r w s _ (unguarded target lb open') = refl
    Resolved-series r w s _ (goes_on target lb cfg guarded goes) = refl
    Resolved-series r w s _ (turned_away target lb cfg guarded stays) = refl

    handle-series :
        (r : Request) (w : StatusRecorder) (s : Server F)
        → series (handle out rd route r w s).0.metrics ≡ series s.metrics
    unfolding check_rate_limit handle
    handle-series r w s =
        let checked = authenticate out s route r w in
        let after = check_rate_limit out rd route checked.request checked.recorder s in
        let limited = limit_by-series route.rate_limit checked.request checked.recorder s in
        elim (Bool-cases checked.passed) [
          | inr refused ↦ rw (handle, refused) refl
          | inl passed ↦ elim (Bool-cases after.2) [
            | inr over ↦ rw (handle, passed, over) limited
            | inl within ↦
                rw (handle, passed, within)
                  (Resolved-series checked.request after.1 after.0 _
                      (resolve-Resolved out rd route checked.request after.1 after.0)
                    ∙ limited)
          ]
        ]

  pub begin-series :
      (rd : Readings) (r : Request) (writer : ResponseWriter) (s : Server F)
      → series (begin out rd r writer s).0.metrics ≡ series s.metrics
  unfolding begin
  begin-series rd r writer s = elim (Option-cases (match s.router r)) [
    | inl unmatched ↦ rw (begin, unmatched) refl
    | inr (route, found) ↦
        rw (begin, found) (handle-series rd route r (new_status_recorder writer) _)
  ]

  pub tell_breaker-series :
      (route : Route) (target : Url) (late : LateReadings) (code : ℤ) (s : Server F)
      → series (tell_breaker out route target late code s).metrics ≡ series s.metrics
  unfolding tell_breaker
  tell_breaker-series route target late code s = elim (Option-cases (enabled_breaker route)) [
    | inl unprotected ↦ rw (tell_breaker, unprotected) refl
    | inr (cfg, protected) ↦ rw (tell_breaker, protected) refl
  ]
