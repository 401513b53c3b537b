-- ===== src/Server/Pieces.antt =====
-- The pieces of `serveRoute` of internal/server/server.go, one after the other.
use mathlib.Core.Path.{subst}
use gogateway.Base.{
  ℕ, zero, suc, ◌≡◌, refl, sym, ap, ◌∙◌, Bool, true, false, Option, none, some, if◌then◌else◌,
  Option-cases, inl, inr, arith,
}
use gogateway.Config.{Route, AuthConfig}
use gogateway.Http.{Request}
use gogateway.Router.{match}
use gogateway.Server.{Outside, Server, Readings, LateReadings}
use gogateway.Server.Recorder.{StatusRecorder, ResponseWriter, new_status_recorder}
use gogateway.Server.Authenticate.{authenticate, authenticate_with, authenticate_key}
use gogateway.Server.RateLimit.{check_rate_limit}
use gogateway.Server.Handler.{
  InFlight, Admission, answered, panicked, forwarded, ProxyRun, resolve, handle, begin, settle,
  complete, serve_route, count_in,
}
use gogateway.Server.Phases.{
  Phase, arrived, authenticated, within, flying, leaving, gone, phase_of, advance,
}
use gogateway.Base.Text.{Text}

module _ {F : Type 0} (out : Outside F) (s : Server F) where
  authenticate_key-method :
      (b : Bool) (r : Request) (w : StatusRecorder)
      → (authenticate_key out s b r w).request.method ≡ r.method
  unfolding authenticate_key
  authenticate_key-method b r w = ground arith

  authenticate_with-method :
      (auth : AuthConfig) (r : Request) (w : StatusRecorder)
      → (authenticate_with out s auth r w).request.method ≡ r.method
  unfolding authenticate_with
  authenticate_with-method auth r w =
      ground (arith, authenticate_key-method true r w, authenticate_key-method false r w)

  authenticate-method :
      (route : Route) (r : Request) (w : StatusRecorder)
      → (authenticate out s route r w).request.method ≡ r.method
  unfolding authenticate
  authenticate-method route r w = elim (Option-cases route.auth) [
    | inl absent ↦ rw (authenticate, absent) refl
    | inr (auth, there) ↦ rw (authenticate, there) (authenticate_with-method auth r w)
  ]

module _ {F : Type 0} (out : Outside F) (rd : Readings) (late : LateReadings)
    (proxied : ProxyRun) where
  abbrev pieces : ℕ → Phase → Server F → Server F × Phase
  pieces zero p s = (s, p)
  pieces (suc n) p s = let (s', p') = advance out rd late proxied p s in pieces n p' s'

  pieces-gone : (n : ℕ) (s : Server F) → pieces n gone s ≡ (s, gone)
  unfolding advance
  pieces-gone zero s = refl
  pieces-gone (suc n) s = pieces-gone n s

  pieces-leaving :
      (n : ℕ) (route : Option Route) (method : Text) (w : StatusRecorder) (s : Server F)
      → pieces (suc (suc n)) (leaving route method w) s ≡ (settle out route method late w s, gone)
  unfolding advance settle
  pieces-leaving n route method w s = pieces-gone n _

  pieces-flying :
      (n : ℕ) (f : InFlight) (s : Server F)
      → pieces (suc (suc (suc n))) (flying f) s ≡ ((complete out late f proxied s).0, gone)
  unfolding advance complete
  pieces-flying n f s = pieces-leaving n (some f.route) f.request.method _ _

  -- What `serve_route` makes of an admission.
  abbrev ended : Option Route → Text → Server F × Admission → Server F
  ended route method (s, answered w) = settle out route method late w s
  ended route method (s, panicked w) = settle out route method late w s
  ended route method (s, forwarded f) = (complete out late f proxied s).0

  pieces-phase_of :
      (n : ℕ) (route : Route) (method : Text) (a : Admission) (s : Server F)
      → pieces (suc (suc (suc n))) (phase_of route method a) s
        ≡ (ended (some route) method (s, a), gone)
  pieces-phase_of n route method (answered w) s = pieces-leaving (suc n) (some route) method w s
  pieces-phase_of n route method (panicked w) s = pieces-leaving (suc n) (some route) method w s
  pieces-phase_of n route method (forwarded f) s = pieces-flying n f s

  pieces-limited :
      (n : ℕ) (route : Route) (r : Request) (w : StatusRecorder) (s : Server F) (passes : Bool)
      → pieces
          (suc (suc (suc (suc n))))
          (if passes then within route r w else leaving (some route) r.method w)
          s
        ≡ (
          ended
              (some route)
              r.method
              (if passes then resolve out rd route r w s else (s, answered w)),
          gone,
        )
  unfolding advance
  pieces-limited n route r w s true =
      let resolved = resolve out rd route r w s in
      pieces-phase_of n route r.method resolved.1 resolved.0
  pieces-limited n route r w s false = pieces-leaving (suc (suc n)) (some route) r.method w s

  -- The limiter's check and what follows it.
  abbrev limited_by : Route → Request → StatusRecorder → Server F → Server F × Admission
  limited_by route r w s =
      let (limited, w', passes) = check_rate_limit out rd route r w s in
      if passes then resolve out rd route r w' limited else (limited, answered w')

  pieces-authenticated :
      (n : ℕ) (route : Route) (r : Request) (w : StatusRecorder) (s : Server F)
      → pieces (suc (suc (suc (suc (suc n))))) (authenticated route r w) s
        ≡ (ended (some route) r.method (limited_by route r w s), gone)
  unfolding advance
  pieces-authenticated n route r w s =
      let after = check_rate_limit out rd route r w s in
      pieces-limited n route r after.1 after.0 after.2

  pieces-checked :
      (n : ℕ) (route : Route) (method : Text) (r : Request) (w : StatusRecorder) (s : Server F)
      (passed : Bool)
      → r.method ≡ method
      → pieces
          (suc (suc (suc (suc (suc n)))))
          (if passed then authenticated route r w else leaving (some route) method w)
          s
        ≡ (
          ended (some route) method (if passed then limited_by route r w s else (s, answered w)),
          gone,
        )
  pieces-checked n route method r w s true same =
      subst
        (λ (m : Text).
          pieces (suc (suc (suc (suc (suc n))))) (authenticated route r w) s
          ≡ (ended (some route) m (limited_by route r w s), gone))
        same (pieces-authenticated n route r w s)
  pieces-checked n route method r w s false same =
      pieces-leaving (suc (suc (suc n))) (some route) method w s

  pieces-begin :
      (n : ℕ) (r : Request) (writer : ResponseWriter) (s : Server F)
      → pieces
          (suc (suc (suc (suc (suc (suc n))))))
          (arrived r (new_status_recorder writer))
          (count_in out s)
        ≡ (ended (match s.router r) r.method (begin out rd r writer s), gone)
  unfolding advance begin handle
  pieces-begin n r writer s = elim (Option-cases (match s.router r)) [
    | inl missed ↦
        rw (advance, begin, missed) (pieces-leaving (suc (suc (suc n))) none r.method _ _)
    | inr (route, found) ↦
        let w = new_status_recorder writer in
        let counted = count_in out s in
        let checked = authenticate out counted route r w in
        rw (advance, begin, found)
          (pieces-checked n route r.method checked.request checked.recorder counted checked.passed
            (authenticate-method out counted route r w))
  ]

  serve_route-ended :
      (route : Option Route) (method : Text) (begun : Server F) (a : Admission)
      → (elim a as (λ (x : Admission). Server F × StatusRecorder) [
        | answered w ↦ (settle out route method late w begun, w)
        | panicked w ↦ (settle out route method late w begun, w)
        | forwarded f ↦ complete out late f proxied begun
      ]).0
        ≡ ended route method (begun, a)
  serve_route-ended route method begun (answered w) = refl
  serve_route-ended route method begun (panicked w) = refl
  serve_route-ended route method begun (forwarded f) = refl

  -- Six pieces of a request that no other interrupts are `serve_route`.
  pieces-eq-serve_route :
      (r : Request) (writer : ResponseWriter) (s : Server F)
      → pieces 6 (arrived r (new_status_recorder writer)) (count_in out s)
        ≡ ((serve_route out rd late (λ q. proxied) r writer s).0, gone)
  unfolding serve_route
  pieces-eq-serve_route r writer s =
      let (begun, admission) = begin out rd r writer s in
      pieces-begin 0 r writer s
      ∙ ap (λ (t : Server F). (t, gone))
          (sym (serve_route-ended (match s.router r) r.method begun admission))
