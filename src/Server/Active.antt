-- ===== src/Server/Active.antt =====
-- The gauge of active connections of internal/server/server.go and internal/metrics/prometheus.go.
use mathlib.Core.Path.{subst}
use gogateway.Base.{
  ℕ, zero, suc, ◌+◌, ◌<◌, ◌≡◌, refl, sym, ap, ◌∙◌, Bool, true, false, List, [], ◌∷◌, ◌++◌,
  if◌then◌else◌, Option-cases, inl, inr, arith,
}
use gogateway.Base.Text.{Text}
use gogateway.Config.{Route}
use gogateway.Router.{match}
use gogateway.Server.RateLimit.{check_rate_limit}
use gogateway.Metrics.{Floats, Gauge, gauge_inc, gauge_dec, record_request}
use gogateway.Server.{Outside, Server, Readings, LateReadings}
use gogateway.Server.Authenticate.{authenticate}
use gogateway.Server.Recorder.{status, perform_all}
use gogateway.Server.Handler.{ProxyRun, Admission, answered, panicked, forwarded, resolve}
use gogateway.Server.Resolved.{resolve-Resolved}
use gogateway.Server.Runs.{two53}
use gogateway.Server.Phases.{
  Phase, arrived, authenticated, within, flying, leaving, counted_out, gone, phase_of, advance,
  Phases, weight, being_served, Move, arrives, advances, sweeps, exports, Moves, started, continued,
}
use gogateway.Server.Kept.{
  export_states-Kept, check_rate_limit-Kept, Resolved-Kept, tell_breaker-Kept,
}

module _ {F : Type 0} (floats : Floats F) where
  -- The float that `n` increments give.
  abbrev pub float_of : ℕ → F
  float_of zero = floats.zero
  float_of (suc n) = floats.plus (float_of n) floats.one

  -- Taking one off undoes adding one, at numbers below 2 ^ 53, as in IEEE 754.
  pub record CountsExactly : Type 0 where
    pub undoes : (n : ℕ) → n < two53 → floats.minus (float_of (suc n)) floats.one ≡ float_of n

module _ {F : Type 0} (out : Outside F) (exact : CountsExactly out.floats) where
  abbrev gauge : ℕ → Gauge F
  gauge n = record { value = float_of out.floats n }

  abbrev Shows : Server F → ℕ → Type 0
  Shows s n = s.metrics.active_connections ≡ gauge n

  dec-gauge : (n : ℕ) → n < two53 → gauge_dec out.floats (gauge (suc n)) ≡ gauge n
  unfolding gauge_dec
  dec-gauge n lt = λ i. record { value = exact.undoes n lt i }

  inc-gauge : (n : ℕ) → gauge_inc out.floats (gauge n) ≡ gauge (suc n)
  unfolding gauge_inc
  inc-gauge n = refl

  being_served-middle :
      (before after : List Phase) (p : Phase)
      → being_served (before ++ p ∷ after) ≡ weight p + being_served (before ++ after)
  being_served-middle [] after p = refl
  being_served-middle (q ∷ before) after p = omega (arith, being_served-middle before after p)

  weight-if :
      (c : Bool) (p q : Phase) → weight p ≡ 1 → weight q ≡ 1 → weight (if c then p else q) ≡ 1
  weight-if true p q e d = e
  weight-if false p q e d = d

  Shows-if :
      (c : Bool) (s t : Server F) (n : ℕ) → Shows s n → Shows t n → Shows (if c then s else t) n
  Shows-if true s t n e d = e
  Shows-if false s t n e d = d

  weight-phase_of :
      (route : Route) (method : Text) (a : Admission) → weight (phase_of route method a) ≡ 1
  weight-phase_of route method (answered w) = refl
  weight-phase_of route method (panicked w) = refl
  weight-phase_of route method (forwarded f) = refl

  Shows-weight :
      (s : Server F) (p : Phase) (n : ℕ) → weight p ≡ 1 → Shows s (1 + n) → Shows s (weight p + n)
  Shows-weight s p n one shows = subst (λ k. Shows s (k + n)) (sym one) shows

  -- A piece of a request keeps the gauge right, with `n` other requests on it.
  advance-Shows :
      (rd : Readings) (late : LateReadings) (proxied : ProxyRun) (p : Phase) (s : Server F) (n : ℕ)
      → n < two53
      → Shows s (weight p + n)
      → let (s', p') = advance out rd late proxied p s in Shows s' (weight p' + n)
  unfolding advance record_request
  advance-Shows rd late proxied (arrived r w) s n few shows =
      elim (Option-cases (match s.router r)) [
        | inl missed ↦ rw (advance, missed) shows
        | inr (route, found) ↦
            let checked = authenticate out s route r w in
            rw (advance, found) (Shows-weight s _ n (weight-if checked.passed _ _ refl refl) shows)
      ]
  advance-Shows rd late proxied (authenticated route r w) s n few shows =
      let limited = check_rate_limit out rd route r w s in
      Shows-weight limited.0 _ n (weight-if limited.2 _ _ refl refl)
        ((check_rate_limit-Kept out rd route r w s).active ∙ shows)
  advance-Shows rd late proxied (within route r w) s n few shows =
      let resolved = resolve out rd route r w s in
      Shows-weight resolved.0 _ n (weight-phase_of route r.method resolved.1)
        ((Resolved-Kept out rd route r w s _ (resolve-Resolved out rd route r w s)).active ∙ shows)
  advance-Shows rd late proxied (flying f) s n few shows =
      let code = status (perform_all proxied.actions f.recorder) in
      Shows-if proxied.aborted s _ (1 + n) shows
        ((tell_breaker-Kept out f.route f.target late code s).active ∙ shows)
  advance-Shows rd late proxied (leaving route method w) s n few shows =
      let one : 1 + n ≡ suc n = omega arith in
      let rest : n ≡ 0 + n = omega arith in
      ap (gauge_dec out.floats) (shows ∙ ap gauge one) ∙ dec-gauge n few ∙ ap gauge rest
  advance-Shows rd late proxied (counted_out route method w) s n few shows = shows
  advance-Shows rd late proxied gone s n few shows = shows

  Move-Shows :
      (st st' : Phases F)
      → Move out st st'
      → being_served st.requests < two53
      → Shows st.server (being_served st.requests)
      → Shows st'.server (being_served st'.requests)
  Move-Shows _ _ (arrives {s} {ps} r h) few shows =
      let one : suc (being_served ps) ≡ 1 + being_served ps = omega arith in
      ap (gauge_inc out.floats) shows ∙ inc-gauge (being_served ps) ∙ ap gauge one
  Move-Shows _ _ (advances {s} before after p rd late proxied) few shows =
      let n = being_served (before ++ after) in
      let (s', p') = advance out rd late proxied p s in
      let there = being_served-middle before after p in
      advance-Shows rd late proxied p s n (omega arith) (shows ∙ ap gauge there)
      ∙ ap gauge (sym (being_served-middle before after p'))
  Move-Shows _ _ (sweeps {s} now) few shows = shows
  Move-Shows _ _ (exports {s}) few shows = (export_states-Kept out s).active ∙ shows

-- However the pieces of requests interleave, in their checks, on their way to Redis, with the reverse
-- proxy and on their way out, the gauge of active connections shows the number of the requests that
-- are being served, those between the two calls of the gauge, if it starts from zero; floating-point
-- numbers count exactly below 2 ^ 53, and fewer requests are served at a time.
pub active_connections-eq :
    {F : Type 0} (out : Outside F) (exact : CountsExactly out.floats) (start : Server F)
    (st : Phases F)
    → start.metrics.active_connections ≡ record { value = out.floats.zero }
    → Moves out start st
    → st.server.metrics.active_connections
      ≡ record { value = float_of out.floats (being_served st.requests) }
active_connections-eq out exact start _ fresh started = fresh
active_connections-eq out exact start _ fresh (continued {st} {st'} before few move) =
    Move-Shows out exact st st' move few (active_connections-eq out exact start st fresh before)
