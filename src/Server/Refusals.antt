-- ===== src/Server/Refusals.antt =====
-- Why internal/server/server.go answers a request itself, and with which code.
use mathlib.Core.Path.{subst}
use gogateway.Base.{◌≡◌, ◌⊎◌, refl, true, false, none, some, [], Option-cases, inl, inr, arith}
use gogateway.Base.Int.{ℤ, pos}
use gogateway.Config.{Route}
use gogateway.Http.{Request, Header}
use gogateway.Router.{match}
use gogateway.Server.{Outside, Server, Readings}
use gogateway.Server.Recorder.{StatusRecorder, new_status_recorder, Fresh, status}
use gogateway.Server.Authenticate.{authenticate}
use gogateway.Server.RateLimit.{check_rate_limit}
use gogateway.Server.Handler.{answered, resolve, handle, count_in, begin}
use gogateway.Server.Answers.{
  IfAnswered, IfAnswered-if, IfAnswered-map, Judged, Limited, Unavailable, resolve-IfAnswered,
  limit_by-Limited, authenticate-Judged, write_json-Fresh,
}

module _ {F : Type 0} (out : Outside F) (rd : Readings) where
  -- The check that failed, and its code.
  abbrev pub Refused : Server F → Route → Request → StatusRecorder → ℤ → Type 0
  Refused s route r w code =
      let checked = authenticate out s route r w in
      let within = (check_rate_limit out rd route checked.request checked.recorder s).2 in
      ((checked.passed ≡ false) × (code ≡ pos 401))
      ⊎ ((checked.passed ≡ true) × (within ≡ false) × (code ≡ pos 429))
      ⊎ ((checked.passed ≡ true) × (within ≡ true) × (code ≡ pos 503))

  handle-IfAnswered :
      (route : Route) (r : Request) (w : StatusRecorder) (s : Server F)
      → Fresh w
      → IfAnswered (λ w'. Refused s route r w w'.status_code) (handle out rd route r w s).1
  unfolding handle check_rate_limit
  handle-IfAnswered route r w s fresh =
      let P : StatusRecorder → Type 0 = λ w'. Refused s route r w w'.status_code in
      let checked = authenticate out s route r w in
      let after = check_rate_limit out rd route checked.request checked.recorder s in
      let judged : Judged checked = authenticate-Judged out s route r w fresh in
      elim judged [
        | inr (failed, code) ↦
            IfAnswered-if P checked.passed _ (s, answered checked.recorder) (λ passed. ground arith)
              (λ failed'. inl (failed, code))
        | inl (passed, clean) ↦
            let limited : Limited out rd route after =
              limit_by-Limited out rd route route.rate_limit checked.request checked.recorder s
                clean in
            IfAnswered-if P checked.passed _ (s, answered checked.recorder)
              (λ passed'.
                IfAnswered-if P after.2 _ (after.0, answered after.1)
                  (λ within. elim limited [
                    | inr (over, code) ↦ ground arith
                    | inl (ok, still) ↦
                        IfAnswered-map (Unavailable out rd route) P
                          (resolve out rd route checked.request after.1 after.0).1
                          (λ w' code. inr (inr (passed, within, code)))
                          (resolve-IfAnswered out rd route checked.request after.1 after.0 still)
                  ])
                  (λ over. elim limited [
                    | inl (ok, still) ↦ ground arith
                    | inr (over', code) ↦ inr (inl (passed, over, code))
                  ]))
              (λ failed. ground arith)
      ]

  -- A request that the gateway answers itself, on a connection to which nothing was written, gets
  -- the code of the check that failed: 404 if no route matches, 401 if it does not pass the route's
  -- authentication, else 429 if it is over the limit, else 503.
  pub begin-answered :
      (r : Request) (h : Header) (s : Server F) (w : StatusRecorder)
      → (begin out rd r (record { header = h; sent = [] }) s).1 ≡ answered w
      → ((match s.router r ≡ none) × (status w ≡ pos 404))
        ⊎ ((route : Route) × (match s.router r ≡ some route)
            × Refused
                (count_in out s)
                route
                r
                (new_status_recorder (record { header = h; sent = [] }))
                (status w))
  unfolding begin status new_status_recorder
  begin-answered r h s w e = elim (Option-cases (match s.router r)) [
    | inl missed ↦
        let there = rw (begin, missed) at e in
        inl (
          missed,
          subst (IfAnswered (λ w'. w'.status_code ≡ pos 404)) there
              (write_json-Fresh _ _ _ (refl, refl, refl)),
        )
    | inr (route, found) ↦
        let there = rw (begin, found) at e in
        let fresh = new_status_recorder (record { header = h; sent = [] }) in
        inr (
          route,
          found,
          subst (IfAnswered (λ w'. Refused (count_in out s) route r fresh w'.status_code)) there
              (handle-IfAnswered route r fresh (count_in out s) (refl, refl, refl)),
        )
  ]
