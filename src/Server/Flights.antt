-- ===== src/Server/Flights.antt =====
-- Nothing was written to the response of a request that internal/server/server.go forwards.
use gogateway.Base.{◌≡◌, refl, sym, List, [], ◌∷◌, ◌++◌, All, Option-cases, inl, inr, arith}
use mathlib.Core.Path.{subst}
use gogateway.Config.{Route}
use gogateway.Http.{Header, Request}
use gogateway.Router.{match}
use gogateway.Server.{Outside, Server, Readings}
use gogateway.Server.Recorder.{StatusRecorder, new_status_recorder, Fresh}
use gogateway.Server.Authenticate.{authenticate}
use gogateway.Server.RateLimit.{check_rate_limit}
use gogateway.Server.Handler.{InFlight, answered, forwarded, resolve, handle, count_in, begin}
use gogateway.Server.Runs.{new_writer}
use gogateway.Server.Admits.{
  IfForwarded, IfForwarded-if, IfForwarded-map, BreakerAdmits, resolve-IfForwarded,
}
use gogateway.Server.Answers.{Judged, Limited, authenticate-Judged, limit_by-Limited}

abbrev pub IsFresh : InFlight → Type 0
IsFresh f = Fresh f.recorder

pub All-middle {ℓ} :
    {A : Type ℓ} (P : A → Type 0) (before after : List A) (x : A)
    → All P (before ++ x ∷ after)
    → P x × All P (before ++ after)
All-middle P [] after x all = all
All-middle P (y ∷ before) after x (here, all) =
    let (this, rest) = All-middle P before after x all in (this, (here, rest))

module _ {F : Type 0} (out : Outside F) (rd : Readings) where
  handle-Fresh :
      (route : Route) (r : Request) (w : StatusRecorder) (s : Server F)
      → Fresh w
      → IfForwarded IsFresh (handle out rd route r w s).1
  unfolding handle check_rate_limit
  handle-Fresh route r w s fresh =
      let checked = authenticate out s route r w in
      let after = check_rate_limit out rd route checked.request checked.recorder s in
      let judged : Judged checked = authenticate-Judged out s route r w fresh in
      IfForwarded-if IsFresh checked.passed _ (s, answered checked.recorder)
        (λ passed.
          IfForwarded-if IsFresh after.2 _ (after.0, answered after.1)
            (λ within. elim judged [
              | inr (failed, code) ↦ ground arith
              | inl (ok, clean) ↦
                  let limited : Limited out rd route after =
                    limit_by-Limited out rd route route.rate_limit checked.request checked.recorder
                      s clean in
                  elim limited [
                    | inr (over, code) ↦ ground arith
                    | inl (ok', still) ↦
                        IfForwarded-map
                          (λ f.
                            (f.route ≡ route)
                            × (f.request ≡ checked.request)
                            × (f.recorder ≡ after.1)
                            × BreakerAdmits out rd after.0 f)
                          IsFresh (resolve out rd route checked.request after.1 after.0).1
                          (λ f (on_route, of_request, by_recorder, admits).
                            subst Fresh (sym by_recorder) still)
                          (resolve-IfForwarded out rd route checked.request after.1 after.0)
                  ]
            ])
            (λ over. tt))
        (λ refused. tt)

  pub begin-Fresh :
      (r : Request) (h : Header) (s : Server F) (f : InFlight)
      → (begin out rd r (new_writer h) s).1 ≡ forwarded f
      → IsFresh f
  unfolding begin new_status_recorder
  begin-Fresh r h s f e = elim (Option-cases (match s.router r)) [
    | inl missed ↦ ground arith
    | inr (route, found) ↦
        let there = rw (begin, found) at e in
        subst (IfForwarded IsFresh) there (
          handle-Fresh route r (new_status_recorder (new_writer h)) (count_in out s)
            (refl, refl, refl))
  ]
