-- ===== src/Server/Resolved.antt =====
-- How internal/server/server.go goes on with a request after its checks: the ways through `resolve`
-- as a relation, for the proofs about them.
use gogateway.Base.{◌≡◌, Bool, true, false, none, some, [], ◌∷◌, Bool-cases, Option-cases, inl, inr}
use gogateway.Base.Maps.{lookup, insert}
use gogateway.Config.{Route, CircuitBrkCfg}
use gogateway.Http.{Url, Request}
use gogateway.Discovery.{get_endpoints}
use gogateway.Balancer.RoundRobin.{RoundRobin, next}
use gogateway.Breaker.History.{asked}
use gogateway.BreakerStore.{get_or_create, call_at}
use gogateway.Server.{Outside, Server, Readings}
use gogateway.Server.Recorder.{StatusRecorder}
use gogateway.Server.Handler.{
  InFlight, Admission, answered, panicked, forwarded, enabled_breaker, no_upstream, circuit_open,
  allow_at, admit, pick, resolve,
}

module _ {F : Type 0} (out : Outside F) (rd : Readings) (route : Route) (r : Request)
    (w : StatusRecorder) where
  abbrev pub flight : Url → InFlight
  flight target = record { route = route; target = target; request = r; recorder = w }

  -- The server after the balancer picked.
  abbrev pub balanced : RoundRobin → Server F → Server F
  balanced lb s = record s { balancers = insert route.id lb s.balancers }

  -- The server after the breaker of the target was asked.
  abbrev pub asked_server : Url → CircuitBrkCfg → Server F → Server F
  asked_server target cfg s =
      let (bs, key) =
        get_or_create route.id (out.url_string target) cfg s.breaker_store s.breaker_store in
      record s { breaker_store = call_at key (asked rd.breaker_now) bs }

  abbrev pub allows : Url → CircuitBrkCfg → Server F → Bool
  allows target cfg s =
      let (bs, key) =
        get_or_create route.id (out.url_string target) cfg s.breaker_store s.breaker_store in
      allow_at key rd.breaker_now bs

  pub data Resolved (s : Server F) : Server F × Admission → Type 0 where
    unavailable : Resolved s (s, answered (no_upstream w))
    no_pick : Resolved s (s, panicked w)
    unguarded :
        (target : Url) (lb : RoundRobin)
        → enabled_breaker route ≡ none
        → Resolved s (balanced lb s, forwarded (flight target))
    goes_on :
        (target : Url) (lb : RoundRobin) (cfg : CircuitBrkCfg)
        → enabled_breaker route ≡ some cfg
        → allows target cfg s ≡ true
        → Resolved s (asked_server target cfg (balanced lb s), forwarded (flight target))
    turned_away :
        (target : Url) (lb : RoundRobin) (cfg : CircuitBrkCfg)
        → enabled_breaker route ≡ some cfg
        → allows target cfg s ≡ false
        → Resolved s (asked_server target cfg (balanced lb s), answered (circuit_open w))

  admit-Resolved :
      (target : Url) (lb : RoundRobin) (s : Server F)
      → Resolved s (admit out rd route target r w (balanced lb s))
  unfolding admit
  admit-Resolved target lb s = elim (Option-cases (enabled_breaker route)) [
    | inl open' ↦ rw (admit, open') (unguarded target lb open')
    | inr (cfg, guarded) ↦ elim (Bool-cases (allows target cfg s)) [
      | inl goes ↦ rw (admit, guarded, goes) (goes_on target lb cfg guarded goes)
      | inr stays ↦ rw (admit, guarded, stays) (turned_away target lb cfg guarded stays)
    ]
  ]

  pub resolve-Resolved : (s : Server F) → Resolved s (resolve out rd route r w s)
  unfolding resolve pick
  resolve-Resolved s = elim (Option-cases (get_endpoints route.id s.registry)) [
    | inl absent ↦ rw (resolve, absent) unavailable
    | inr ([], found) ↦ rw (resolve, found) unavailable
    | inr (ep ∷ eps, found) ↦ elim (Option-cases (lookup route.id s.balancers)) [
      | inl missing ↦ rw (resolve, found, pick, missing) no_pick
      | inr (lb, there) ↦ elim (Option-cases (next (ep ∷ eps) lb)) [
        | inl idle ↦ rw (resolve, found, pick, there, idle) no_pick
        | inr ((target, lb'), picked) ↦
            rw (resolve, found, pick, there, picked) (admit-Resolved target lb' s)
      ]
    ]
  ]
