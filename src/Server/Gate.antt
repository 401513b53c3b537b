-- ===== src/Server/Gate.antt =====
-- Which requests internal/server/server.go forwards to an upstream.

use mathlib.Core.Option.{some-injective}
use mathlib.Core.Path.{subst}
use gogateway.Base.{
  ◌≡◌, ◌⊎◌, refl, sym, ap, ◌∙◌, Bool, true, false, Option, none, some, if◌then◌else◌, Bool-cases,
  Option-cases, inl, inr, arith,
}
use gogateway.Config.{Route, RateLimitCfg, AuthConfig}
use gogateway.Http.{Request}
use gogateway.Router.{match}
use gogateway.BreakerStore.{BreakerStore}
use gogateway.Limiter.{Verdict}
use gogateway.Server.{Outside, Server, Readings}
use gogateway.Server.Recorder.{StatusRecorder, ResponseWriter, new_status_recorder}
use gogateway.Server.Authenticate.{authenticate, MayPass, authenticate-passed_iff}
use gogateway.Server.RateLimit.{limit_by, check_rate_limit, report_limit, ask_limiter}
use gogateway.Server.Handler.{InFlight, answered, forwarded, resolve, handle, count_in, begin}
use gogateway.Server.Admits.{
  IfForwarded, IfForwarded-if, IfForwarded-map, BreakerAdmits, LimiterAllows, resolve-IfForwarded,
}

module _ {F : Type 0} (out : Outside F) (rd : Readings) where
  -- The rest of the limiter's check.
  pub report_limit-passes :
      (route : Route) (lim : RateLimitCfg) (v : Verdict) (w : StatusRecorder) (s : Server F)
      → let after = report_limit out rd route lim v w s in
        (after.2 ≡ v.allowed) × (after.0.breaker_store ≡ s.breaker_store)
  unfolding report_limit
  report_limit-passes route lim v w s = elim (Bool-cases v.allowed) [
    | inl within ↦ rw (report_limit, within) (refl, refl)
    | inr over ↦ rw (report_limit, over) (refl, refl)
  ]

  limit-if :
      (c : Bool) (t e : Server F × StatusRecorder × Bool) (bs : BreakerStore) (Q : Type 0)
      → t.0.breaker_store ≡ bs
      → e.0.breaker_store ≡ bs
      → (t.2 ≡ true → Q)
      → ((if c then t else e).0.breaker_store ≡ bs) × ((if c then t else e).2 ≡ true → c ≡ true → Q)
  limit-if true t e bs Q same same' q = (same, λ p on. q p)
  limit-if false t e bs Q same same' q = (same', λ p on. ground arith)

  pub limit_by-passes :
      (o : Option RateLimitCfg) (route : Route) (r : Request) (w : StatusRecorder) (s : Server F)
      → let after = limit_by out o rd route r w s in
        (after.0.breaker_store ≡ s.breaker_store)
        × (after.2 ≡ true
            → (lim : RateLimitCfg) → o ≡ some lim
            → lim.enabled ≡ true
            → (ask_limiter rd route r s.rate_limiter).1.allowed ≡ true)
  unfolding limit_by
  limit_by-passes none route r w s = (refl, λ p lim there on. ground arith)
  limit_by-passes (some lim) route r w s =
      let (entries, v) = ask_limiter rd route r s.rate_limiter in
      let (passes, kept) =
        report_limit-passes route lim v w (record s { rate_limiter = entries }) in
      let (same, q) =
        limit-if lim.enabled
          (report_limit out rd route lim v w (record s { rate_limiter = entries })) (s, w, true)
          s.breaker_store (v.allowed ≡ true) kept refl (λ p. sym passes ∙ p) in
      (
        same,
        λ p lim' there on.
            q p (ap (λ (l : RateLimitCfg). l.enabled) (some-injective lim lim' there) ∙ on),
      )

  handle-IfForwarded :
      (route : Route) (r : Request) (w : StatusRecorder) (s : Server F)
      → IfForwarded
          (λ f.
            (f.route ≡ route)
            × ((authenticate out s route r w).passed ≡ true)
            × LimiterAllows out rd s f
            × BreakerAdmits out rd s f)
          (handle out rd route r w s).1
  unfolding handle check_rate_limit
  handle-IfForwarded route r w s =
      let P : InFlight → Type 0 = λ f.
        (f.route ≡ route)
        × ((authenticate out s route r w).passed ≡ true)
        × LimiterAllows out rd s f
        × BreakerAdmits out rd s f in
      let checked = authenticate out s route r w in
      let after = check_rate_limit out rd route checked.request checked.recorder s in
      let (same, within) =
        limit_by-passes route.rate_limit route checked.request checked.recorder s in
      IfForwarded-if P checked.passed _ (s, answered checked.recorder)
        (λ passed.
          IfForwarded-if P after.2 _ (after.0, answered after.1)
            (λ allowed.
              IfForwarded-map
                (λ f.
                  (f.route ≡ route)
                  × (f.request ≡ checked.request)
                  × (f.recorder ≡ after.1)
                  × BreakerAdmits out rd after.0 f)
                P (resolve out rd route checked.request after.1 after.0).1
                (λ f (on_route, of_request, by_recorder, admits). (
                  on_route,
                  passed,
                  λ lim there on.
                      ap (λ (x : Route). (ask_limiter rd x f.request s.rate_limiter).1.allowed)
                        on_route
                      ∙ ap (λ (q : Request). (ask_limiter rd route q s.rate_limiter).1.allowed)
                          of_request
                      ∙ within allowed lim (ap (λ (x : Route). x.rate_limit) (sym on_route) ∙ there)
                          on,
                  subst
                      (λ (bs : BreakerStore).
                        BreakerAdmits out rd (record s { breaker_store = bs }) f)
                      same admits,
                ))
                (resolve-IfForwarded out rd route checked.request after.1 after.0))
            (λ over. tt))
        (λ refused. tt)

  -- A request is forwarded only for the route that `Match` finds for it, only if it passes that
  -- route's authentication, only if the limiter allows it where the route has a limit, and only if
  -- the breaker of the picked upstream admits it where the route has breakers.
  pub begin-forwarded :
      (r : Request) (writer : ResponseWriter) (s : Server F) (f : InFlight)
      → (begin out rd r writer s).1 ≡ forwarded f
      → (match s.router r ≡ some f.route)
        × ((f.route.auth ≡ none)
            ⊎ ((auth : AuthConfig) × (f.route.auth ≡ some auth) × MayPass out s auth r.header))
        × LimiterAllows out rd s f
        × BreakerAdmits out rd s f
  unfolding begin
  begin-forwarded r writer s f e = elim (Option-cases (match s.router r)) [
    | inl missed ↦ ground arith
    | inr (route, found) ↦
        let counted = count_in out s in
        let w = new_status_recorder writer in
        let P : InFlight → Type 0 = λ f'.
          (f'.route ≡ route)
          × ((authenticate out counted route r w).passed ≡ true)
          × LimiterAllows out rd s f'
          × BreakerAdmits out rd s f' in
        let handled : (handle out rd route r w counted).1 ≡ forwarded f = rw (begin, found) at e in
        let (on_route, passed, allows, admits) =
          subst (IfForwarded P) handled (handle-IfForwarded route r w counted) in
        let open_or = (authenticate-passed_iff out counted route r w).0 passed in
        (
          found ∙ ap some (sym on_route),
          elim open_or [
            | inl absent ↦ inl (ap (λ (x : Route). x.auth) on_route ∙ absent)
            | inr (auth, there, may) ↦ inr (auth, ap (λ (x : Route). x.auth) on_route ∙ there, may)
          ],
          allows,
          admits,
        )
  ]
