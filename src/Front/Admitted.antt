-- ===== src/Front/Admitted.antt =====
-- `serveRoute` of internal/server/server.go up to the call of the proxy, with a request ID.
use gogateway.Base.{
  ◌≡◌, refl, Bool, true, false, Option, none, some, [], ◌∷◌, if◌then◌else◌, Option-cases,
  Bool-cases, inl, inr,
}
use gogateway.Base.Text.{Text, text, text_eq}
use gogateway.Base.Decimal.{itoa}
use gogateway.Config.{Route, RateLimitCfg}
use gogateway.Http.{Request, set, canonical}
use gogateway.Router.{match}
use gogateway.Limiter.{Verdict}
use gogateway.Server.{Outside, Server, Readings}
use gogateway.Server.Recorder.{
  StatusRecorder, ResponseWriter, new_status_recorder, perform_all, change_header,
}
use gogateway.Server.Authenticate.{authenticate}
use gogateway.Server.RateLimit.{
  limit_by, report_limit, check_rate_limit, limit_headers, retry_after,
}
use gogateway.Server.Handler.{
  Admission, answered, panicked, forwarded, no_upstream, circuit_open, handle, count_in, begin,
}
use gogateway.Server.Resolved.{
  Resolved, unavailable, no_pick, unguarded, goes_on, turned_away, resolve-Resolved,
}
use gogateway.Front.Kept.{
  id_of, Carries, perform_all-Carries, set-KeepsId, write_json-Carries, limit_headers-KeepsId,
}
use gogateway.Front.Answered.{authenticate-Marked}

module _ (id : Text) where
  -- The response and, if it is forwarded, the request have the ID.
  abbrev pub Admits : Admission → Type 0
  Admits (answered w) = Carries id w.response_writer
  Admits (panicked w) = Carries id w.response_writer
  Admits (forwarded f) = (id_of f.request.header ≡ id) × Carries id f.recorder.response_writer

  Admits-if :
      {A : Type 0} (c : Bool) (t e : A × Admission)
      → Admits t.1
      → Admits e.1
      → Admits (if c then t else e).1
  Admits-if true t e p q = p
  Admits-if false t e p q = q

  Carries-if :
      {A B : Type 0} (c : Bool) (t e : A × StatusRecorder × B)
      → Carries id t.1.response_writer
      → Carries id e.1.response_writer
      → Carries id (if c then t else e).1.response_writer
  Carries-if true t e p q = p
  Carries-if false t e p q = q

  module _ {F : Type 0} (out : Outside F) (rd : Readings) (route : Route) where
    report_limit-Carries :
        (lim : RateLimitCfg) (v : Verdict) (w : StatusRecorder) (s : Server F)
        → Carries id w.response_writer
        → Carries id (report_limit out rd route lim v w s).1.response_writer
    unfolding report_limit canonical text_eq perform_all limit_headers
    report_limit-Carries lim v w s carries =
        let headed =
          perform_all-Carries id (limit_headers lim v rd.reset_now) w
            (limit_headers-KeepsId lim v rd.reset_now) carries in
        elim (Bool-cases v.allowed) [
          | inl within ↦ rw (report_limit, within) headed
          | inr over ↦
              rw (report_limit, over)
                (write_json-Carries id _ _ _ (
                  perform_all-Carries id
                    (change_header (set (text "Retry-After") (itoa (retry_after v.reset))) ∷ [])
                    (perform_all (limit_headers lim v rd.reset_now) w)
                    (set-KeepsId (text "Retry-After") (itoa (retry_after v.reset)) refl, tt)
                    headed))
        ]

    limit_by-Carries :
        (o : Option RateLimitCfg) (r : Request) (w : StatusRecorder) (s : Server F)
        → Carries id w.response_writer
        → Carries id (limit_by out o rd route r w s).1.response_writer
    unfolding limit_by
    limit_by-Carries none r w s carries = carries
    limit_by-Carries (some lim) r w s carries =
        Carries-if lim.enabled _ (s, w, true) (report_limit-Carries lim _ w _ carries) carries

    Resolved-Admits :
        (r : Request) (w : StatusRecorder) (s : Server F) (t : Server F × Admission)
        → id_of r.header ≡ id
        → Carries id w.response_writer
        → Resolved out rd route r w s t
        → Admits t.1
    unfolding no_upstream circuit_open
    Resolved-Admits r w s _ asks carries unavailable = write_json-Carries id _ _ w carries
    Resolved-Admits r w s _ asks carries no_pick = carries
    Resolved-Admits r w s _ asks carries (unguarded target lb open') = (asks, carries)
    Resolved-Admits r w s _ asks carries (goes_on target lb cfg guarded goes) = (asks, carries)
    Resolved-Admits r w s _ asks carries (turned_away target lb cfg guarded stays) =
        write_json-Carries id _ _ w carries

    handle-Admits :
        (r : Request) (w : StatusRecorder) (s : Server F)
        → id_of r.header ≡ id
        → Carries id w.response_writer
        → Admits (handle out rd route r w s).1
    unfolding handle check_rate_limit
    handle-Admits r w s asks carries =
        let checked = authenticate out s route r w in
        let after = check_rate_limit out rd route checked.request checked.recorder s in
        let (asks', carries') = authenticate-Marked id out s r w asks carries route in
        let limited =
          limit_by-Carries route.rate_limit checked.request checked.recorder s carries' in
        Admits-if checked.passed _ (s, answered checked.recorder)
          (Admits-if after.2 _ (after.0, answered after.1)
            (Resolved-Admits checked.request after.1 after.0 _ asks' limited
              (resolve-Resolved out rd route checked.request after.1 after.0))
            limited)
          carries'

  pub begin-Admits :
      {F : Type 0} (out : Outside F) (rd : Readings) (r : Request) (writer : ResponseWriter)
      (s : Server F)
      → id_of r.header ≡ id
      → Carries id writer
      → Admits (begin out rd r writer s).1
  unfolding begin new_status_recorder
  begin-Admits out rd r writer s asks carries = elim (Option-cases (match s.router r)) [
    | inl missed ↦
        rw (begin, missed) (write_json-Carries id _ _ (new_status_recorder writer) carries)
    | inr (route, found) ↦
        rw (begin, found)
          (handle-Admits out rd route r (new_status_recorder writer) (count_in out s) asks carries)
  ]
