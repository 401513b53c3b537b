-- ===== src/Server/Throttled.antt =====
-- The calls that internal/server/server.go makes of the rate limiter.
use gogateway.Base.{
  ◌≤◌, ◌≡◌, refl, sym, ◌∙◌, Bool, true, false, Option, none, some, List, [], if◌then◌else◌,
  Bool-cases, Option-cases, inl, inr, arith,
}
use gogateway.Base.Text.{Text}
use gogateway.Config.{Route, RateLimitCfg}
use gogateway.Http.{Request, Header}
use gogateway.Router.{match}
use gogateway.Limiter.{Entries, Verdict}
use gogateway.Limiter.Sweep.{Op}
use gogateway.Limiter.Quota.{requests_of, admitted_of}
use gogateway.Server.{Outside, Server, Readings}
use gogateway.Server.Recorder.{StatusRecorder, new_status_recorder}
use gogateway.Server.Authenticate.{authenticate}
use gogateway.Server.RateLimit.{ask_limiter, report_limit, limit_by, check_rate_limit}
use gogateway.Server.Handler.{
  Admission, answered, panicked, forwarded, resolve, handle, begin, count_in,
}
use gogateway.Server.Resolved.{
  Resolved, unavailable, no_pick, unguarded, goes_on, turned_away, resolve-Resolved,
}
use gogateway.Server.Runs.{new_writer}
use gogateway.Server.Admits.{IfForwarded}
use gogateway.Server.Gate.{report_limit-passes}
use gogateway.Server.Asked.{run_ops, Follows, ask_ops, limit_ops, ask_limiter-Follows}

module _ {F : Type 0} (out : Outside F) (rd : Readings) where
  report_limit-keeps :
      (route : Route) (lim : RateLimitCfg) (v : Verdict) (w : StatusRecorder) (s : Server F)
      → (report_limit out rd route lim v w s).0.rate_limiter ≡ s.rate_limiter
  unfolding report_limit
  report_limit-keeps route lim v w s = elim (Bool-cases v.allowed) [
    | inl within ↦ rw (report_limit, within) refl
    | inr over ↦ rw (report_limit, over) refl
  ]

  Follows-choice :
      (key : Text) (c : Bool) (ops : List Op) (t e : Server F × StatusRecorder × Bool) (m : Entries)
      → (c ≡ true → Follows key m ops t.0.rate_limiter t.2)
      → (c ≡ false → Follows key m [] e.0.rate_limiter e.2)
      → let after = if c then t else e in
        Follows key m (if c then ops else []) after.0.rate_limiter after.2
  Follows-choice key true ops t e m p q = p refl
  Follows-choice key false ops t e m p q = q refl

  limit_by-Follows :
      (key : Text) (o : Option RateLimitCfg) (route : Route) (r : Request) (w : StatusRecorder)
      (s : Server F)
      → route.rate_limit ≡ o
      → let after = limit_by out o rd route r w s in
        Follows key s.rate_limiter (limit_ops rd o route r) after.0.rate_limiter after.2
  unfolding limit_by run_ops admitted_of
  limit_by-Follows key none route r w s limited = (refl, λ allowed. omega arith)
  limit_by-Follows key (some lim) route r w s limited =
      let (entries, v) = ask_limiter rd route r s.rate_limiter in
      let asked = record s { rate_limiter = entries } in
      let (passes, same) = report_limit-passes out rd route lim v w asked in
      Follows-choice key lim.enabled (ask_ops rd lim route r) _ (s, w, true) s.rate_limiter
        (λ on.
          let (follows, allows) =
            ask_limiter-Follows rd lim route r s.rate_limiter key limited on in
          (
            report_limit-keeps route lim v w asked ∙ follows,
            λ passed. allows (sym passes ∙ passed),
          ))
        (λ off. (refl, λ allowed. omega arith))

  -- The limiter's calls for a request of the route.
  abbrev pub handle_ops : Server F → Route → Request → StatusRecorder → List Op
  handle_ops s route r w =
      let checked = authenticate out s route r w in
      if checked.passed then limit_ops rd route.rate_limit route checked.request else []

  -- The limiter went through the calls, and if the request is forwarded they were allowed.
  abbrev pub Obeys : Text → Entries → List Op → Server F × Admission → Type 0
  Obeys key m ops t =
      (t.0.rate_limiter ≡ run_ops ops m)
      × IfForwarded (λ f. requests_of key ops ≤ admitted_of key ops m) t.1

  Obeys-choice :
      (key : Text) (m : Entries) (c : Bool) (ops : List Op) (t e : Server F × Admission)
      → (c ≡ true → Obeys key m ops t)
      → (c ≡ false → Obeys key m [] e)
      → Obeys key m (if c then ops else []) (if c then t else e)
  Obeys-choice key m true ops t e p q = p refl
  Obeys-choice key m false ops t e p q = q refl

  Obeys-if :
      (key : Text) (m : Entries) (ops : List Op) (c : Bool) (t e : Server F × Admission)
      → (c ≡ true → Obeys key m ops t)
      → (c ≡ false → Obeys key m ops e)
      → Obeys key m ops (if c then t else e)
  Obeys-if key m ops true t e p q = p refl
  Obeys-if key m ops false t e p q = q refl

  IfForwarded-always : (P : Type 0) (a : Admission) → P → IfForwarded (λ f. P) a
  IfForwarded-always P (answered w) p = tt
  IfForwarded-always P (panicked w) p = tt
  IfForwarded-always P (forwarded f) p = p

  Resolved-keeps :
      (route : Route) (r : Request) (w : StatusRecorder) (s : Server F) (t : Server F × Admission)
      → Resolved out rd route r w s t
      → t.0.rate_limiter ≡ s.rate_limiter
  Resolved-keeps route r w s _ unavailable = refl
  Resolved-keeps route r w s _ no_pick = refl
  Resolved-keeps route r w s _ (unguarded target lb open') = refl
  Resolved-keeps route r w s _ (goes_on target lb cfg guarded goes) = refl
  Resolved-keeps route r w s _ (turned_away target lb cfg guarded stays) = refl

  handle-Obeys :
      (key : Text) (route : Route) (r : Request) (w : StatusRecorder) (s : Server F)
      → Obeys key s.rate_limiter (handle_ops s route r w) (handle out rd route r w s)
  unfolding handle check_rate_limit run_ops
  handle-Obeys key route r w s =
      let checked = authenticate out s route r w in
      let after = check_rate_limit out rd route checked.request checked.recorder s in
      let ops = limit_ops rd route.rate_limit route checked.request in
      let (follows, allows) =
        limit_by-Follows key route.rate_limit route checked.request checked.recorder s refl in
      Obeys-choice key s.rate_limiter checked.passed ops _ (s, answered checked.recorder)
        (λ passed.
          Obeys-if key s.rate_limiter ops after.2 _ (after.0, answered after.1)
            (λ within. (
              Resolved-keeps route checked.request after.1 after.0 _
                    (resolve-Resolved out rd route checked.request after.1 after.0)
                  ∙ follows,
              IfForwarded-always _ (resolve out rd route checked.request after.1 after.0).1
                  (allows within),
            ))
            (λ over. (follows, tt)))
        (λ refused. (refl, tt))

  abbrev begin_for : Server F → Request → StatusRecorder → Option Route → List Op
  begin_for s r w none = []
  begin_for s r w (some route) = handle_ops s route r w

  -- The limiter's calls for a request.
  abbrev pub begin_ops : Request → Header → Server F → List Op
  begin_ops r h s =
      begin_for (count_in out s) r (new_status_recorder (new_writer h)) (match s.router r)

  pub begin-Obeys :
      (key : Text) (r : Request) (h : Header) (s : Server F)
      → Obeys key s.rate_limiter (begin_ops r h s) (begin out rd r (new_writer h) s)
  unfolding begin run_ops
  begin-Obeys key r h s = elim (Option-cases (match s.router r)) [
    | inl missed ↦ rw (begin, missed) (refl, tt)
    | inr (route, found) ↦
        rw (begin, found)
          (handle-Obeys key route r (new_status_recorder (new_writer h)) (count_in out s))
  ]
