-- ===== src/Server/Available.antt =====
-- While no upstream answers with a server error, internal/server/server.go forwards what the other
-- checks let through.
use gogateway.Base.{
  ◌≡◌, ◌⊎◌, refl, sym, ap, ◌∙◌, true, false, Option, none, some, List, All, Option-cases, inl, inr,
  arith,
}
use mathlib.Core.Path.{subst}
use gogateway.Base.Int.{pos, leb_ℤ}
use gogateway.Base.Clock.{Time}
use gogateway.Base.Text.{Text}
use gogateway.Base.Maps.{lookup}
use gogateway.Config.{Route, Config, AuthConfig, CircuitBrkCfg}
use gogateway.Config.Validate.{IsUsable}
use gogateway.Http.{Url, Request, Header}
use gogateway.Router.{Router, match}
use gogateway.Discovery.{new_static_registry, Listed}
use gogateway.KeyStore.{KeyFileEntry}
use gogateway.Breaker.{CircuitBreaker, state_closed, new_circuit_breaker, allow, record_success}
use gogateway.Breaker.History.{failed, step}
use gogateway.BreakerStore.{BreakerStore, breaker_key, new_breaker_store}
use gogateway.Server.{Outside, Server, Readings, LateReadings}
use gogateway.Server.Recorder.{StatusRecorder, new_status_recorder, first_code}
use gogateway.Server.Authenticate.{
  authenticate, authenticate_with, authenticate_key, MayPass, authenticate-passed_iff,
}
use gogateway.Server.RateLimit.{check_rate_limit, limit_by}
use gogateway.Server.Handler.{
  InFlight, Admission, answered, panicked, forwarded, ProxyRun, enabled_breaker, admit, pick,
  resolve, handle, count_in, begin, settle,
}
use gogateway.Server.Start.{Surroundings, new}
use gogateway.Server.Runs.{
  State, Step, ends, starts, returns, sweeps, exports, new_writer, Reachable, started, continued,
}
use gogateway.Server.Export.{export_states}
use gogateway.Server.Kept.{check_rate_limit-Kept}
use gogateway.Server.Safety.{Ready, Ready-Kept, Provided, next_total, match_in-Listed}
use gogateway.Server.Panics.{new-Ready, Reachable-Ready}
use gogateway.Server.Admits.{breaker_of, allow_at-get_or_create}
use gogateway.Server.Gate.{limit_by-passes}
use gogateway.Server.Flights.{IsFresh, All-middle, begin-Fresh}
use gogateway.Server.Breakers.{AllBreakers, IsStart, begin-Holds, complete-Holds}

-- Every breaker has the property and nothing is written to the responses of the requests in flight.
abbrev AlwaysHolds : {F : Type 0} → (CircuitBreaker → Type 0) → State F → Type 0
AlwaysHolds P st = AllBreakers P st.server.breaker_store × All IsFresh st.in_flight

module _ {F : Type 0} (out : Outside F) (Upstreams : ProxyRun → Type 0)
    (P : CircuitBreaker → Type 0) (start : IsStart P)
    (fail : (run : ProxyRun) (late : LateReadings)
      → Upstreams run
      → leb_ℤ (pos 500) (first_code run.actions) ≡ true
      → (cb : CircuitBreaker) → P cb
      → P (step (failed late.failure_now late.failure_later) cb)) where
  Step-Holds : (st st' : State F) → Step out Upstreams st st' → AlwaysHolds P st → AlwaysHolds P st'
  unfolding settle export_states
  Step-Holds _ _ (ends {s} {s'} rd late r h w begun stopped) (all, fresh) = (
    subst (λ (x : Server F × Admission). AllBreakers P x.0.breaker_store) begun
        (begin-Holds out P start rd r (new_writer h) s all),
    fresh,
  )
  Step-Holds _ _ (starts {s} {s'} rd r h f begun) (all, fresh) = (
    subst (λ (x : Server F × Admission). AllBreakers P x.0.breaker_store) begun
        (begin-Holds out P start rd r (new_writer h) s all),
    (begin-Fresh out rd r h s f (ap (λ (x : Server F × Admission). x.1) begun), fresh),
  )
  Step-Holds _ _ (returns {s} before after late f run may) (all, fresh) =
      let (this, rest) = All-middle IsFresh before after f fresh in
      (complete-Holds out P start late f run s this (fail run late may) all, rest)
  Step-Holds _ _ (sweeps {s} now) (all, fresh) = (all, fresh)
  Step-Holds _ _ (exports {s}) (all, fresh) = (all, fresh)

  pub Reachable-Holds :
      (s : Server F) (st : State F)
      → Reachable out Upstreams s st
      → AllBreakers P s.breaker_store
      → AlwaysHolds P st
  Reachable-Holds s _ started all = (all, tt)
  Reachable-Holds s _ (continued {st} {st'} before few step) all =
      Step-Holds st st' step (Reachable-Holds s st before all)

abbrev IsClosed : CircuitBreaker → Type 0
IsClosed cb = cb.state ≡ state_closed

IsClosed-IsStart : IsStart IsClosed
unfolding new_circuit_breaker step allow record_success
IsClosed-IsStart = record {
  new = λ cfg. refl;
  ask = λ now cb closed. ground arith;
  succeed = λ cb closed. ground arith;
}

allow-closed : (now : Time) (cb : CircuitBreaker) → IsClosed cb → (allow now cb).1 ≡ true
unfolding allow
allow-closed now cb closed = rw (allow, closed) refl

breaker_of-IsClosed :
    (bs : BreakerStore) (route_id url : Text) (cfg : CircuitBrkCfg)
    → AllBreakers IsClosed bs
    → IsClosed (breaker_of bs route_id url cfg)
unfolding new_circuit_breaker
breaker_of-IsClosed bs route_id url cfg all =
    elim (Option-cases (lookup (breaker_key route_id url) bs.breakers)) [
      | inl absent ↦ rw absent refl
      | inr (cb, there) ↦ rw there (all (breaker_key route_id url) cb there)
    ]

abbrev IsForwarded : Admission → Type 0
IsForwarded (answered w) = ⊥
IsForwarded (panicked w) = ⊥
IsForwarded (forwarded f) = Unit

module _ {F : Type 0} (out : Outside F) (rd : Readings) (route : Route) where
  admit-IsForwarded :
      (target : Url) (r : Request) (w : StatusRecorder) (s : Server F)
      → AllBreakers IsClosed s.breaker_store
      → IsForwarded (admit out rd route target r w s).1
  unfolding admit
  admit-IsForwarded target r w s all = elim (Option-cases (enabled_breaker route)) [
    | inl unprotected ↦ rw (admit, unprotected) tt
    | inr (cfg, protected) ↦
        let url = out.url_string target in
        let closed = breaker_of-IsClosed s.breaker_store route.id url cfg all in
        let admitted =
          allow_at-get_or_create route.id url cfg s.breaker_store rd.breaker_now
          ∙ allow-closed rd.breaker_now (breaker_of s.breaker_store route.id url cfg) closed in
        rw (admit, protected, admitted) tt
  ]

  resolve-IsForwarded :
      (r : Request) (w : StatusRecorder) (s : Server F)
      → Provided s route
      → AllBreakers IsClosed s.breaker_store
      → IsForwarded (resolve out rd route r w s).1
  unfolding resolve pick
  resolve-IsForwarded r w s ((ep, eps, found), (lb, there)) all =
      let ((target, lb'), picked) = next_total ep eps lb in
      rw (resolve, found, pick, there, picked) (admit-IsForwarded target r w _ all)

  handle-IsForwarded :
      (r : Request) (w : StatusRecorder) (s : Server F)
      → Ready s
      → Listed route s.router.routes
      → AllBreakers IsClosed s.breaker_store
      → let checked = authenticate out s route r w in
        checked.passed ≡ true
        → (check_rate_limit out rd route checked.request checked.recorder s).2 ≡ true
        → IsForwarded (handle out rd route r w s).1
  unfolding handle check_rate_limit limit_by
  handle-IsForwarded r w s ready listed all passed within =
      let checked = authenticate out s route r w in
      let after = check_rate_limit out rd route checked.request checked.recorder s in
      let kept = check_rate_limit-Kept out rd route checked.request checked.recorder s in
      let listed' = subst (λ (x : Router). Listed route x.routes) (sym kept.router) listed in
      let provided = Ready-Kept s after.0 kept ready route listed' in
      let (same, rest) =
        limit_by-passes out rd route.rate_limit route checked.request checked.recorder s in
      rw (handle, passed, within)
        (resolve-IsForwarded checked.request after.1 after.0 provided
          (subst (AllBreakers IsClosed) (sym same) all))

module _ {F : Type 0} (out : Outside F) (parse_url : Text → Option Url)
    (unmarshal_keys : Text → Option (List KeyFileEntry)) where
  -- A new server has no breakers.
  pub new-lookup :
      (cfg : Config) (around : Surroundings) (s : Server F)
      → new out parse_url unmarshal_keys cfg around ≡ some s
      → (key : Text) → lookup key s.breaker_store.breakers ≡ none
  unfolding new new_breaker_store lookup
  new-lookup cfg around s made key =
      elim (Option-cases (new_static_registry parse_url cfg.routes)) [
        | inl broken ↦ ground arith
        | inr (reg, built) ↦
            let empty : s.breaker_store ≡ new_breaker_store = ground arith in
            ap (λ (bs : BreakerStore). lookup key bs.breakers) empty
      ]

  pub new-breakers :
      (cfg : Config) (around : Surroundings) (s : Server F)
      → new out parse_url unmarshal_keys cfg around ≡ some s
      → (P : CircuitBreaker → Type 0) → AllBreakers P s.breaker_store
  new-breakers cfg around s made P key cb there =
      let clash : none ≡ some cb = sym (new-lookup cfg around s made key) ∙ there in ground arith

abbrev pub NoServerErrors : ProxyRun → Type 0
NoServerErrors run = leb_ℤ (pos 500) (first_code run.actions) ≡ false

forwarded_of : (a : Admission) → IsForwarded a → (f : InFlight) × (a ≡ forwarded f)
forwarded_of (answered w) p = absurd p
forwarded_of (panicked w) p = absurd p
forwarded_of (forwarded f) p = (f, refl)

-- As long as the proxy begins no response with a code of 500 or more, its own 502 for an upstream that
-- it cannot reach included, a server of a usable configuration forwards, in every state that it comes through and however requests interleave, each request that
-- has a route, may pass that route's authentication and is within its rate limit.
pub begin-forwards :
    {F : Type 0} (out : Outside F) (parse_url : Text → Option Url)
    (unmarshal_keys : Text → Option (List KeyFileEntry)) (cfg : Config) (around : Surroundings)
    (start : Server F) (st : State F) (rd : Readings) (r : Request) (h : Header) (route : Route)
    → All IsUsable cfg.routes
    → new out parse_url unmarshal_keys cfg around ≡ some start
    → Reachable out NoServerErrors start st
    → match st.server.router r ≡ some route
    → (route.auth ≡ none)
      ⊎ ((auth : AuthConfig) × (route.auth ≡ some auth) × MayPass out st.server auth r.header)
    → let checked = authenticate out st.server route r (new_status_recorder (new_writer h)) in
      (check_rate_limit out rd route checked.request checked.recorder (count_in out st.server)).2
        ≡ true
      → (f : InFlight) × ((begin out rd r (new_writer h) st.server).1 ≡ forwarded f)
unfolding begin match authenticate authenticate_with authenticate_key
begin-forwards out parse_url unmarshal_keys cfg around start st rd r h route usable made reached
      found may within =
    let ready =
      Reachable-Ready out NoServerErrors start st reached
        (new-Ready out parse_url unmarshal_keys cfg around start usable made) in
    let (all, fresh) =
      Reachable-Holds out NoServerErrors IsClosed IsClosed-IsStart
        (λ run late fine bad. ground arith) start st reached
        (new-breakers out parse_url unmarshal_keys cfg around start made IsClosed) in
    let w = new_status_recorder (new_writer h) in
    let passed = (authenticate-passed_iff out st.server route r w).1 may in
    let handled =
      handle-IsForwarded out rd route r w (count_in out st.server) ready
        (match_in-Listed st.server.router.routes r route found) all passed within in
    forwarded_of (begin out rd r (new_writer h) st.server).1 (rw (begin, found) handled)
