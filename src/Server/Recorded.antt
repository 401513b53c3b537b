-- ===== src/Server/Recorded.antt =====
-- The requests that internal/server/server.go records in internal/metrics/prometheus.go.
use gogateway.Base.{
  arith, ◌≡◌, refl, sym, ap, ◌∙◌, Option, some, List, [], ◌∷◌, ◌++◌, All, Bool-cases, Option-cases,
  inl, inr,
}
use mathlib.Core.Path.{subst}
use gogateway.Base.Decimal.{itoa}
use gogateway.Base.Text.{Text}
use gogateway.Config.{Config, Route}
use gogateway.Http.{Url}
use gogateway.KeyStore.{KeyFileEntry}
use gogateway.Router.{match}
use gogateway.Metrics.{
  Metrics, CounterVec, HistogramVec, new_metrics, record_request, set_breaker_states, counter_inc,
  observe,
}
use gogateway.Metrics.Scrape.{Event, requested, apply, apply_all}
use gogateway.Metrics.Labels.{Unbroken}
use gogateway.Metrics.Counts.{requests_of, occurrences, counted_to, value_of, requests_total-eq}
use gogateway.Server.{Outside, Server, LateReadings}
use gogateway.Server.Recorder.{StatusRecorder, status, perform_all}
use gogateway.Server.Export.{export_states}
use gogateway.Server.Handler.{Admission, InFlight, ProxyRun, route_label, settle, complete}
use gogateway.Server.Series.{series, begin-series, tell_breaker-series}
use gogateway.Discovery.{new_static_registry}
use gogateway.Server.Start.{Surroundings, new}
use gogateway.Server.Runs.{
  State, Step, ends, starts, returns, sweeps, exports, new_writer, Reachable, started, continued,
}

module _ {F : Type 0} (out : Outside F) where
  apply_all-snoc :
      (events : List Event) (e : Event) (m : Metrics F)
      → apply_all out.floats (events ++ e ∷ []) m
        ≡ apply out.floats e (apply_all out.floats events m)
  unfolding apply_all
  apply_all-snoc [] e m = refl
  apply_all-snoc (d ∷ events) e m = apply_all-snoc events e (apply out.floats d m)

  -- The event of a request that ends.
  abbrev finished : Option Route → Text → LateReadings → StatusRecorder → Event
  finished route method late w = requested (route_label route) method (itoa (status w)) late.elapsed

  -- The series are those of the events.
  abbrev Told : List Event → Server F → Type 0
  Told events s = series s.metrics ≡ series (apply_all out.floats events (new_metrics out.floats))

  settle-Told :
      (route : Option Route) (method : Text) (late : LateReadings) (w : StatusRecorder)
      (events : List Event) (s : Server F)
      → Told events s
      → Told (events ++ finished route method late w ∷ []) (settle out route method late w s)
  unfolding settle record_request apply
  settle-Told route method late w events s told =
      ap
        (λ (x : CounterVec F × HistogramVec F). (
          counter_inc out.floats (route_label route ∷ method ∷ itoa (status w) ∷ []) x.0,
          observe out.floats (out.floats.seconds late.elapsed) (route_label route ∷ method ∷ [])
              x.1,
        ))
        told
      ∙ sym (
          ap series (apply_all-snoc events (finished route method late w) (new_metrics out.floats)))

  complete-Told :
      (late : LateReadings) (f : InFlight) (proxied : ProxyRun) (events : List Event) (s : Server F)
      → Told events s
      → Told
          (events
            ++ finished
                (some f.route)
                f.request.method
                late
                (perform_all proxied.actions f.recorder)
              ∷ [])
          (complete out late f proxied s).0
  unfolding complete
  complete-Told late f proxied events s told =
      let w = perform_all proxied.actions f.recorder in
      elim (Bool-cases proxied.aborted) [
        | inl gone ↦
            simp (complete, gone) (settle-Told (some f.route) f.request.method late w events s told)
        | inr over ↦
            simp (complete, over)
              (settle-Told (some f.route) f.request.method late w events _
                (tell_breaker-series out f.route f.target late (status w) s ∙ told))
      ]

  module _ {Upstreams : ProxyRun → Type 0} where
    -- The requests that have ended in a run, in their order.
    abbrev step_events : {st st' : State F} → Step out Upstreams st st' → List Event → List Event
    step_events (ends {s} rd late r h w begun stopped) events =
        events ++ finished (match s.router r) r.method late w ∷ []
    step_events (starts rd r h f begun) events = events
    step_events (returns before after late f proxied may) events =
        events
        ++ finished (some f.route) f.request.method late (perform_all proxied.actions f.recorder)
          ∷ []
    step_events (sweeps now) events = events
    step_events exports events = events

    abbrev pub ended_requests :
        {start : Server F} {st : State F} → Reachable out Upstreams start st → List Event
    ended_requests started = []
    ended_requests (continued before few step) = step_events step (ended_requests before)

    step-Told :
        (st st' : State F) (step : Step out Upstreams st st') (events : List Event)
        → Told events st.server
        → Told (step_events step events) st'.server
    unfolding export_states set_breaker_states
    step-Told _ _ (ends {s} {s'} rd late r h w begun stopped) events told =
        settle-Told (match s.router r) r.method late w events s' (
          subst (λ (x : Server F × Admission). Told events x.0) begun
            (begin-series out rd r (new_writer h) s ∙ told))
    step-Told _ _ (starts {s} rd r h f begun) events told =
        subst (λ (x : Server F × Admission). Told events x.0) begun
          (begin-series out rd r (new_writer h) s ∙ told)
    step-Told _ _ (returns {s} before after late f proxied may) events told =
        complete-Told late f proxied events s told
    step-Told _ _ (sweeps now) events told = told
    step-Told _ _ exports events told = told

    run-Told :
        (start : Server F) (st : State F) (reached : Reachable out Upstreams start st)
        → Told [] start
        → Told (ended_requests reached) st.server
    run-Told start _ started told = told
    run-Told start _ (continued {st} {st'} before few step) told =
        step-Told st st' step (ended_requests before) (run-Told start st before told)

  new-metrics :
      (parse_url : Text → Option Url) (unmarshal_keys : Text → Option (List KeyFileEntry))
      (cfg : Config) (around : Surroundings) (s : Server F)
      → new out parse_url unmarshal_keys cfg around ≡ some s
      → s.metrics ≡ new_metrics out.floats
  unfolding new
  new-metrics parse_url unmarshal_keys cfg around s made =
      elim (Option-cases (new_static_registry parse_url cfg.routes)) [
        | inl broken ↦ ground arith
        | inr (reg, built) ↦ ground arith
      ]

-- In every run of a server from its start, however requests interleave, the counter of a route, a
-- method and a status code is the number of the requests that have ended with them, answered,
-- panicked or returned by the proxy, each once, as a float to which 1 was added so often, if no
-- label has a zero byte.
pub value_of-ended_requests :
    {F : Type 0} (out : Outside F) (parse_url : Text → Option Url)
    (unmarshal_keys : Text → Option (List KeyFileEntry)) (cfg : Config) (around : Surroundings)
    (Upstreams : ProxyRun → Type 0) (start : Server F) (st : State F) (route method code : Text)
    (reached : Reachable out Upstreams start st)
    → new out parse_url unmarshal_keys cfg around ≡ some start
    → All (All Unbroken) (requests_of (ended_requests out reached))
    → All Unbroken (route ∷ method ∷ code ∷ [])
    → value_of out.floats (route ∷ method ∷ code ∷ []) st.server.metrics.requests_total
      ≡ counted_to out.floats
          (occurrences (route ∷ method ∷ code ∷ []) (requests_of (ended_requests out reached)))
unfolding apply_all
value_of-ended_requests out parse_url unmarshal_keys cfg around Upstreams start st route method code
      reached made all own =
    let fresh = ap series (new-metrics out parse_url unmarshal_keys cfg around start made) in
    let told = run-Told out start st reached fresh in
    ap (λ x. value_of out.floats (route ∷ method ∷ code ∷ []) x.0) told
    ∙ requests_total-eq out.floats (ended_requests out reached) route method code all own
