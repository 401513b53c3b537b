-- ===== src/Server/Admits.antt =====
-- The last checks of internal/server/server.go before it forwards a request.
use mathlib.Core.Option
use mathlib.Core.Option.{some-injective}
use mathlib.Core.Path.{subst}
use gogateway.Base.{◌≡◌, refl, sym, ◌∙◌, Bool, true, false, some, if◌then◌else◌, arith}
use gogateway.Base.Clock.{Time}
use gogateway.Base.Text.{Text, text_eq_refl}
use gogateway.Base.Maps.{lookup}
use gogateway.Config.{Route, RateLimitCfg, CircuitBrkCfg}
use gogateway.Http.{Request}
use gogateway.Breaker.{CircuitBreaker, new_circuit_breaker, allow}
use gogateway.BreakerStore.{BreakerStore, breaker_key, get_or_create}
use gogateway.BreakerStore.Laws.{lookup-get_or_create}
use gogateway.Server.{Outside, Server, Readings}
use gogateway.Server.Recorder.{StatusRecorder}
use gogateway.Server.RateLimit.{ask_limiter}
use gogateway.Server.Resolved.{
  Resolved, unavailable, no_pick, unguarded, goes_on, turned_away, resolve-Resolved,
}
use gogateway.Server.Handler.{
  InFlight, Admission, answered, panicked, forwarded, enabled_breaker, allow_at, resolve,
}

-- What holds of a request if it is forwarded.
abbrev pub IfForwarded : (InFlight → Type 0) → Admission → Type 0
IfForwarded P (answered w) = Unit
IfForwarded P (panicked w) = Unit
IfForwarded P (forwarded f) = P f

pub IfForwarded-if :
    {A : Type 0} (P : InFlight → Type 0) (c : Bool) (t e : A × Admission)
    → (c ≡ true → IfForwarded P t.1)
    → (c ≡ false → IfForwarded P e.1)
    → IfForwarded P (if c then t else e).1
IfForwarded-if P true t e p q = p refl
IfForwarded-if P false t e p q = q refl

pub IfForwarded-map :
    (P Q : InFlight → Type 0) (a : Admission)
    → ((f : InFlight) → P f → Q f)
    → IfForwarded P a
    → IfForwarded Q a
IfForwarded-map P Q (answered w) h p = tt
IfForwarded-map P Q (panicked w) h p = tt
IfForwarded-map P Q (forwarded f) h p = h f p

-- The breaker that the store has for the pool, or the new one that it makes.
abbrev pub breaker_of : BreakerStore → Text → Text → CircuitBrkCfg → CircuitBreaker
breaker_of bs route_id url cfg =
    Option.get_or (lookup (breaker_key route_id url) bs.breakers) (new_circuit_breaker cfg)

pub allow_at-get_or_create :
    (route_id url : Text) (cfg : CircuitBrkCfg) (bs : BreakerStore) (now : Time)
    → let (bs', key) = get_or_create route_id url cfg bs bs in
      allow_at key now bs' ≡ (allow now (breaker_of bs route_id url cfg)).1
unfolding allow_at
allow_at-get_or_create route_id url cfg bs now =
    let key = breaker_key route_id url in
    let (pointer, found) =
      lookup-get_or_create route_id url cfg bs bs (λ k cb there. (cb, there)) key in
    rw (pointer, allow_at, found, text_eq_refl) refl

module _ {F : Type 0} (out : Outside F) (rd : Readings) where
  -- The breaker of the upstream, if the route has breakers, admits a request.
  abbrev pub BreakerAdmits : Server F → InFlight → Type 0
  BreakerAdmits s f =
      (cfg : CircuitBrkCfg)
      → enabled_breaker f.route ≡ some cfg
      → (allow rd.breaker_now
          (breaker_of s.breaker_store f.route.id (out.url_string f.target) cfg)).1
        ≡ true

  -- The limiter, if the route has a limit, allows it.
  abbrev pub LimiterAllows : Server F → InFlight → Type 0
  LimiterAllows s f =
      (lim : RateLimitCfg)
      → f.route.rate_limit ≡ some lim
      → lim.enabled ≡ true
      → (ask_limiter rd f.route f.request s.rate_limiter).1.allowed ≡ true

  Resolved-IfForwarded :
      (route : Route) (r : Request) (w : StatusRecorder) (s : Server F) (t : Server F × Admission)
      → Resolved out rd route r w s t
      → IfForwarded
          (λ f. (f.route ≡ route) × (f.request ≡ r) × (f.recorder ≡ w) × BreakerAdmits s f)
          t.1
  Resolved-IfForwarded route r w s _ unavailable = tt
  Resolved-IfForwarded route r w s _ no_pick = tt
  Resolved-IfForwarded route r w s _ (unguarded target lb open') =
      (refl, refl, refl, λ cfg on. ground arith)
  Resolved-IfForwarded route r w s _ (goes_on target lb cfg guarded goes) = (
    refl,
    refl,
    refl,
    λ cfg' on.
        let same : cfg ≡ cfg' = ground arith in
        subst
          (λ (c : CircuitBrkCfg).
            (allow rd.breaker_now (breaker_of s.breaker_store route.id (out.url_string target) c)).1
            ≡ true)
          same
          (sym (
              allow_at-get_or_create route.id (out.url_string target) cfg s.breaker_store
                rd.breaker_now)
            ∙ goes),
  )
  Resolved-IfForwarded route r w s _ (turned_away target lb cfg guarded stays) = tt

  pub resolve-IfForwarded :
      (route : Route) (r : Request) (w : StatusRecorder) (s : Server F)
      → IfForwarded
          (λ f. (f.route ≡ route) × (f.request ≡ r) × (f.recorder ≡ w) × BreakerAdmits s f)
          (resolve out rd route r w s).1
  resolve-IfForwarded route r w s =
      Resolved-IfForwarded route r w s _ (resolve-Resolved out rd route r w s)
