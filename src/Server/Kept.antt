-- ===== src/Server/Kept.antt =====
-- What the steps of internal/server/server.go leave as it is.
use gogateway.Base.{
  ◌≡◌, refl, ◌∙◌, ap, Bool, true, false, Option, none, some, if◌then◌else◌, Bool-cases,
  Option-cases, inl, inr,
}
use gogateway.Base.Int.{ℤ}
use gogateway.Base.Text.{Text, text_eq}
use gogateway.Base.Maps.{lookup, insert, lookup-insert}
use gogateway.Config.{Route}
use gogateway.Config.{RateLimitCfg, CircuitBrkCfg}
use gogateway.BreakerStore.{BreakerStore}
use gogateway.Limiter.{Entries, Verdict}
use gogateway.Http.{Url, Request}
use gogateway.Router.{match}
use gogateway.Balancer.RoundRobin.{RoundRobin}
use gogateway.Metrics.{Metrics, record_rate_limit_rejection, record_request, gauge_dec}
use gogateway.Server.{Outside, Server, Readings, LateReadings}
use gogateway.Server.Recorder.{new_status_recorder, StatusRecorder, ResponseWriter}
use gogateway.Server.Authenticate.{authenticate}
use gogateway.Server.RateLimit.{limit_by, check_rate_limit, report_limit}
use gogateway.Metrics.{set_breaker_states}
use gogateway.Server.Export.{breaker_states, export_states}
use gogateway.Server.Resolved.{
  Resolved, unavailable, no_pick, unguarded, goes_on, turned_away, balanced, asked_server,
  resolve-Resolved,
}
use gogateway.Server.Handler.{
  count_in, count_out, Admission, answered, enabled_breaker, handle, begin, settle, tell_breaker,
  complete, InFlight, ProxyRun,
}

-- The route table, the registry and the number of active connections are the same, and every route
-- that had a balancer still has one.
pub record Kept {F : Type 0} (s s' : Server F) : Type 0 where
  pub router : s'.router ≡ s.router
  pub registry : s'.registry ≡ s.registry
  pub active : s'.metrics.active_connections ≡ s.metrics.active_connections
  pub balanced :
      (k : Text) (lb : RoundRobin)
      → lookup k s.balancers ≡ some lb
      → (lb' : RoundRobin) × (lookup k s'.balancers ≡ some lb')

module _ {F : Type 0} where
  pub Kept-refl : (s : Server F) → Kept s s
  Kept-refl s = record {
    router = refl;
    registry = refl;
    active = refl;
    balanced = λ k lb found. (lb, found);
  }

  pub Kept-trans : (s t u : Server F) → Kept s t → Kept t u → Kept s u
  Kept-trans s t u p q = record {
    router = q.router ∙ p.router;
    registry = q.registry ∙ p.registry;
    active = q.active ∙ p.active;
    balanced = λ k lb found. (let (lb', found') = p.balanced k lb found in q.balanced k lb' found');
  }

  Kept-if :
      {B : Type 0} (s : Server F) (c : Bool) (t e : Server F × B)
      → Kept s t.0
      → Kept s e.0
      → Kept s (if c then t else e).0
  Kept-if s true t e p q = p
  Kept-if s false t e p q = q

  Kept-if_triple :
      {B C : Type 0} (s : Server F) (c : Bool) (t e : Server F × B × C)
      → Kept s t.0
      → Kept s e.0
      → Kept s (if c then t else e).0
  Kept-if_triple s true t e p q = p
  Kept-if_triple s false t e p q = q

  Kept-option :
      {A B : Type 0} (s : Server F) (o : Option A) (n : Server F × B) (f : A → Server F × B)
      → Kept s n.0
      → ((a : A) → o ≡ some a → Kept s (f a).0)
      → Kept s (elim o as (λ (x : Option A). Server F × B) [ none ↦ n | some a ↦ f a ]).0
  Kept-option s none n f p q = p
  Kept-option s (some a) n f p q = q a refl

  -- A server with another breaker store, or with other entries of the limiter.
  Kept-breakers : (s : Server F) (bs : BreakerStore) → Kept s (record s { breaker_store = bs })
  Kept-breakers s bs = record {
    router = refl;
    registry = refl;
    active = refl;
    balanced = λ k lb found. (lb, found);
  }

  pub Kept-limiter : (s : Server F) (m : Entries) → Kept s (record s { rate_limiter = m })
  Kept-limiter s m = record {
    router = refl;
    registry = refl;
    active = refl;
    balanced = λ k lb found. (lb, found);
  }

  Kept-metrics :
      (s : Server F) (m : Metrics F)
      → m.active_connections ≡ s.metrics.active_connections
      → Kept s (record s { metrics = m })
  Kept-metrics s m same = record {
    router = refl;
    registry = refl;
    active = same;
    balanced = λ k lb found. (lb, found);
  }

  Kept-balancers :
      (s : Server F) (id : Text) (lb : RoundRobin)
      → Kept s (record s { balancers = insert id lb s.balancers })
  Kept-balancers s id lb = record {
    router = refl;
    registry = refl;
    active = refl;
    balanced = λ k lb' found. elim (Bool-cases (text_eq id k)) [
      | inl same ↦ (lb, rw (lookup-insert, same))
      | inr other ↦ (lb', rw (lookup-insert, other) found)
    ];
  }

module _ {F : Type 0} (out : Outside F) (rd : Readings) (route : Route) where
  asked-Kept :
      (target : Url) (lb : RoundRobin) (cfg : CircuitBrkCfg) (r : Request) (w : StatusRecorder)
      (s : Server F)
      → Kept s (asked_server out rd route r w target cfg (balanced out rd route r w lb s))
  asked-Kept target lb cfg r w s =
      Kept-trans s (balanced out rd route r w lb s) _ (Kept-balancers s route.id lb)
        (Kept-breakers (balanced out rd route r w lb s) _)

  pub Resolved-Kept :
      (r : Request) (w : StatusRecorder) (s : Server F) (t : Server F × Admission)
      → Resolved out rd route r w s t
      → Kept s t.0
  Resolved-Kept r w s _ unavailable = Kept-refl s
  Resolved-Kept r w s _ no_pick = Kept-refl s
  Resolved-Kept r w s _ (unguarded target lb open') = Kept-balancers s route.id lb
  Resolved-Kept r w s _ (goes_on target lb cfg guarded goes) = asked-Kept target lb cfg r w s
  Resolved-Kept r w s _ (turned_away target lb cfg guarded stays) = asked-Kept target lb cfg r w s

  report_limit-Kept :
      (lim : RateLimitCfg) (v : Verdict) (w : StatusRecorder) (s : Server F)
      → Kept s (report_limit out rd route lim v w s).0
  unfolding report_limit record_rate_limit_rejection
  report_limit-Kept lim v w s =
      Kept-if_triple s v.allowed _ _ (Kept-refl s)
        (Kept-metrics s (record_rate_limit_rejection out.floats route.id s.metrics) refl)

  limit_by-Kept :
      (o : Option RateLimitCfg) (r : Request) (w : StatusRecorder) (s : Server F)
      → Kept s (limit_by out o rd route r w s).0
  unfolding limit_by
  limit_by-Kept none r w s = Kept-refl s
  limit_by-Kept (some lim) r w s =
      Kept-if_triple s lim.enabled _ _
        (Kept-trans s _ _ (Kept-limiter s _) (report_limit-Kept lim _ w _)) (Kept-refl s)

  pub check_rate_limit-Kept :
      (r : Request) (w : StatusRecorder) (s : Server F)
      → Kept s (check_rate_limit out rd route r w s).0
  unfolding check_rate_limit
  check_rate_limit-Kept r w s = limit_by-Kept route.rate_limit r w s

  pub handle-Kept :
      (r : Request) (w : StatusRecorder) (s : Server F) → Kept s (handle out rd route r w s).0
  unfolding handle
  handle-Kept r w s =
      let checked = authenticate out s route r w in
      let after = check_rate_limit out rd route checked.request checked.recorder s in
      let kept = check_rate_limit-Kept checked.request checked.recorder s in
      Kept-if {B = Admission} s checked.passed _ (s, answered checked.recorder)
        (Kept-if {B = Admission} s after.2 _ (after.0, answered after.1)
          (Kept-trans s after.0 _ kept (
            Resolved-Kept checked.request after.1 after.0 _
              (resolve-Resolved out rd route checked.request after.1 after.0)))
          kept)
        (Kept-refl s)

module _ {F : Type 0} (out : Outside F) where
  -- A request that begins is counted, and then nothing else that matters here changes.
  pub begin-Kept :
      (rd : Readings) (r : Request) (writer : ResponseWriter) (s : Server F)
      → Kept (count_in out s) (begin out rd r writer s).0
  unfolding begin
  begin-Kept rd r writer s =
      Kept-option {B = Admission} (count_in out s) (match s.router r) _ _
        (Kept-refl (count_in out s))
        (λ route found. handle-Kept out rd route r (new_status_recorder writer) (count_in out s))

  pub settle-Kept :
      (route : Option Route) (method : Text) (late : LateReadings) (w : StatusRecorder)
      (s : Server F)
      → Kept (count_out out s) (settle out route method late w s)
  unfolding settle record_request
  settle-Kept route method late w s = Kept-metrics (count_out out s) _ refl

  pub tell_breaker-Kept :
      (route : Route) (target : Url) (late : LateReadings) (code : ℤ) (s : Server F)
      → Kept s (tell_breaker out route target late code s)
  unfolding tell_breaker
  tell_breaker-Kept route target late code s = elim (Option-cases (enabled_breaker route)) [
    | inl unprotected ↦ rw (tell_breaker, unprotected) (Kept-refl s)
    | inr (cfg, protected) ↦ rw (tell_breaker, protected) (Kept-breakers s _)
  ]

  count_out-Kept : (s t : Server F) → Kept s t → Kept (count_out out s) (count_out out t)
  count_out-Kept s t kept = record {
    router = kept.router;
    registry = kept.registry;
    active = ap (gauge_dec out.floats) kept.active;
    balanced = kept.balanced;
  }

  -- A request that ends is counted off.
  pub complete-Kept :
      (late : LateReadings) (f : InFlight) (run : ProxyRun) (s : Server F)
      → Kept (count_out out s) (complete out late f run s).0
  unfolding complete
  complete-Kept late f run s = elim (Bool-cases run.aborted) [
    | inl gone ↦ rw (complete, gone) (settle-Kept (some f.route) f.request.method late _ s)
    | inr over ↦
        rw (complete, over)
          (Kept-trans (count_out out s) _ _
            (count_out-Kept s _ (tell_breaker-Kept f.route f.target late _ s))
            (settle-Kept (some f.route) f.request.method late _ _))
  ]

  -- The export changes the gauges of the breakers only.
  pub export_states-Kept : (s : Server F) → Kept s (export_states out s)
  unfolding export_states set_breaker_states
  export_states-Kept s =
      Kept-metrics s (set_breaker_states out.floats (breaker_states s.breaker_store) s.metrics) refl
