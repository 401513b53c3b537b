-- ===== src/Server/History.antt =====
-- The calls of a pool's breaker in one request of internal/server/server.go.
use gogateway.Base.{
  ◌≡◌, ◌⊎◌, sym, Bool, true, false, Option, none, some, List, if◌then◌else◌, Bool-cases,
  Option-cases, inl, inr,
}
use mathlib.Core.Path.{subst}
use gogateway.Base.Int.{ℤ, pos, ltb_ℤ, leb_ℤ}
use gogateway.Base.Text.{Text}
use gogateway.Config.{Route, CircuitBrkCfg}
use gogateway.Http.{Url, Request}
use gogateway.Router.{match}
use gogateway.Breaker.History.{Call, asked, failed, succeeded, run}
use gogateway.BreakerStore.{BreakerStore, breaker_key}
use gogateway.Server.{Outside, Server, Readings, LateReadings}
use gogateway.Server.Recorder.{
  StatusRecorder, ResponseWriter, new_status_recorder, status, perform_all,
}
use gogateway.Server.Authenticate.{authenticate}
use gogateway.Server.RateLimit.{check_rate_limit}
use gogateway.Server.Handler.{
  InFlight, Admission, answered, panicked, forwarded, ProxyRun, enabled_breaker, handle, begin,
  count_in, tell_breaker,
}
use gogateway.Server.Resolved.{
  Resolved, unavailable, no_pick, unguarded, goes_on, turned_away, resolve-Resolved,
}
use gogateway.Server.Gate.{limit_by-passes}
use gogateway.Server.Told.{HasRun, HasRun-same, appended, told-HasRun, got-HasRun, rejected-same}

module _ {F : Type 0} (out : Outside F) (key : Text) where
  -- The pool's calls after one for the route and target, if the route has breakers.
  abbrev pub for_pool : Route → Url → Call → List Call → Option CircuitBrkCfg → List Call
  for_pool route target c calls none = calls
  for_pool route target c calls (some cfg) =
      appended (breaker_key route.id (out.url_string target)) key c calls

  abbrev pub asked_calls : Readings → InFlight → List Call → List Call
  asked_calls rd f calls =
      for_pool f.route f.target (asked rd.breaker_now) calls (enabled_breaker f.route)

  -- A server error is a failure, another code a success, and no code is nothing.
  abbrev pub code_calls : LateReadings → Route → Url → ℤ → List Call → List Call
  code_calls late route target code calls =
      if leb_ℤ (pos 500) code
      then for_pool route target (failed late.failure_now late.failure_later) calls
          (enabled_breaker route)
      else if ltb_ℤ (pos 0) code
      then for_pool route target succeeded calls (enabled_breaker route)
      else calls

  abbrev pub returned_calls : LateReadings → InFlight → ProxyRun → List Call → List Call
  returned_calls late f run calls =
      if run.aborted
      then calls
      else code_calls late f.route f.target (status (perform_all run.actions f.recorder)) calls

  -- What the calls of the pool are after the first part of a request.
  abbrev calls_after : Readings → List Call → Admission → List Call
  calls_after rd calls (answered w) = calls
  calls_after rd calls (panicked w) = calls
  calls_after rd calls (forwarded f) = asked_calls rd f calls

  abbrev pub Tracks : Readings → List Call → Server F × Admission → Type 0
  Tracks rd calls t = HasRun key (calls_after rd calls t.1) t.0.breaker_store

  Tracks-if :
      (rd : Readings) (calls : List Call) (c : Bool) (t e : Server F × Admission)
      → Tracks rd calls t
      → Tracks rd calls e
      → Tracks rd calls (if c then t else e)
  Tracks-if rd calls true t e p q = p
  Tracks-if rd calls false t e p q = q

  module _ (rd : Readings) (route : Route) (calls : List Call) where
    chosen :
        (target : Url) (o : Option CircuitBrkCfg) (bs : BreakerStore)
        → enabled_breaker route ≡ o
        → HasRun key (for_pool route target (asked rd.breaker_now) calls o) bs
        → HasRun key (for_pool route target (asked rd.breaker_now) calls (enabled_breaker route)) bs
    chosen target o bs e p =
        subst
          (λ (x : Option CircuitBrkCfg).
            HasRun key (for_pool route target (asked rd.breaker_now) calls x) bs)
          (sym e) p

    Resolved-Tracks :
        (r : Request) (w : StatusRecorder) (s : Server F) (t : Server F × Admission)
        → HasRun key calls s.breaker_store
        → Resolved out rd route r w s t
        → Tracks rd calls t
    Resolved-Tracks r w s _ has unavailable = has
    Resolved-Tracks r w s _ has no_pick = has
    Resolved-Tracks r w s _ has (unguarded target lb open') =
        chosen target none s.breaker_store open' has
    Resolved-Tracks r w s _ has (goes_on target lb cfg guarded goes) =
        chosen target (some cfg) _ guarded (
          told-HasRun key calls route.id (out.url_string target) cfg (asked rd.breaker_now)
            s.breaker_store has)
    Resolved-Tracks r w s _ has (turned_away target lb cfg guarded stays) =
        HasRun-same key calls s.breaker_store _
          (rejected-same key route.id (out.url_string target) cfg rd.breaker_now s.breaker_store
            stays)
          has

    handle-Tracks :
        (r : Request) (w : StatusRecorder) (s : Server F)
        → HasRun key calls s.breaker_store
        → Tracks rd calls (handle out rd route r w s)
    unfolding handle check_rate_limit
    handle-Tracks r w s has =
        let checked = authenticate out s route r w in
        let after = check_rate_limit out rd route checked.request checked.recorder s in
        let (same, within) =
          limit_by-passes out rd route.rate_limit route checked.request checked.recorder s in
        let still : HasRun key calls after.0.breaker_store =
          subst (HasRun key calls) (sym same) has in
        Tracks-if rd calls checked.passed _ (s, answered checked.recorder)
          (Tracks-if rd calls after.2 _ (after.0, answered after.1)
            (Resolved-Tracks checked.request after.1 after.0 _ still
              (resolve-Resolved out rd route checked.request after.1 after.0))
            still)
          has

  pub begin-Tracks :
      (rd : Readings) (r : Request) (writer : ResponseWriter) (calls : List Call) (s : Server F)
      → HasRun key calls s.breaker_store
      → Tracks rd calls (begin out rd r writer s)
  unfolding begin
  begin-Tracks rd r writer calls s has = elim (Option-cases (match s.router r)) [
    | inl missed ↦ rw (begin, missed) has
    | inr (route, found) ↦
        rw (begin, found)
          (handle-Tracks rd route calls r (new_status_recorder writer) (count_in out s) has)
  ]

  pub answered-Tracks :
      (rd : Readings) (calls : List Call) (w : StatusRecorder) (t : Server F × Admission)
      → (t.1 ≡ answered w) ⊎ (t.1 ≡ panicked w)
      → Tracks rd calls t
      → HasRun key calls t.0.breaker_store
  answered-Tracks rd calls w t (inl e) p =
      subst (λ (a : Admission). HasRun key (calls_after rd calls a) t.0.breaker_store) e p
  answered-Tracks rd calls w t (inr e) p =
      subst (λ (a : Admission). HasRun key (calls_after rd calls a) t.0.breaker_store) e p

  pub tell_breaker-HasRun :
      (late : LateReadings) (route : Route) (target : Url) (code : ℤ) (calls : List Call)
      (s : Server F)
      → HasRun key calls s.breaker_store
      → HasRun key
          (code_calls late route target code calls)
          (tell_breaker out route target late code s).breaker_store
  unfolding tell_breaker
  tell_breaker-HasRun late route target code calls s has =
      elim (Option-cases (enabled_breaker route)) [
        | inl unprotected ↦ rw (tell_breaker, unprotected) (code-same has)
        | inr (cfg, protected) ↦
            let url = out.url_string target in
            let told = λ (c : Call). told-HasRun key calls route.id url cfg c s.breaker_store has in
            rw (tell_breaker, protected)
              (elim (Bool-cases (leb_ℤ (pos 500) code)) [
                | inl bad ↦ rw bad (told (failed late.failure_now late.failure_later))
                | inr fine ↦ elim (Bool-cases (ltb_ℤ (pos 0) code)) [
                  | inl some_code ↦ rw (fine, some_code) (told succeeded)
                  | inr no_code ↦
                      rw (fine, no_code) (got-HasRun key calls route.id url cfg s.breaker_store has)
                ]
              ])
      ]
    where
      code-same :
          HasRun key calls s.breaker_store
          → HasRun key
              (if leb_ℤ (pos 500) code then calls else if ltb_ℤ (pos 0) code then calls else calls)
              s.breaker_store
      code-same p = elim (Bool-cases (leb_ℤ (pos 500) code)) [
        | inl bad ↦ rw bad p
        | inr fine ↦ elim (Bool-cases (ltb_ℤ (pos 0) code)) [
          | inl some_code ↦ rw (fine, some_code) p
          | inr no_code ↦ rw (fine, no_code) p
        ]
      ]
