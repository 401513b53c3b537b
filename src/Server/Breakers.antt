-- ===== src/Server/Breakers.antt =====
-- What holds of every breaker of internal/server/server.go, if it holds of a new one and is kept by
-- the calls that the server makes.
use gogateway.Base.{
  ◌≡◌, refl, sym, Bool, true, false, some, if◌then◌else◌, Bool-cases, Option-cases, inl, inr, arith,
}
use mathlib.Core.Path.{subst}
use gogateway.Base.Int.{ℤ, pos, ltb_ℤ, leb_ℤ}
use gogateway.Base.Clock.{Time}
use gogateway.Base.Text.{Text, text_eq}
use gogateway.Base.Maps.{lookup}
use gogateway.Config.{Route, CircuitBrkCfg}
use gogateway.Http.{Url, Request}
use gogateway.Router.{match}
use gogateway.Breaker.{CircuitBreaker, new_circuit_breaker}
use gogateway.Breaker.History.{Call, asked, failed, succeeded, step}
use gogateway.BreakerStore.{BreakerStore, breaker_key, get_or_create, call_at}
use gogateway.BreakerStore.Laws.{lookup-get_or_create, lookup-call_at}
use gogateway.Server.{Outside, Server, Readings, LateReadings}
use gogateway.Server.Recorder.{
  StatusRecorder, ResponseWriter, new_status_recorder, first_code, Fresh, status, perform_all-Fresh,
}
use gogateway.Server.Authenticate.{authenticate}
use gogateway.Server.RateLimit.{check_rate_limit}
use gogateway.Server.Handler.{
  InFlight, Admission, answered, ProxyRun, enabled_breaker, handle, begin, count_in, settle,
  tell_breaker, complete,
}
use gogateway.Server.Resolved.{
  Resolved, unavailable, no_pick, unguarded, goes_on, turned_away, resolve-Resolved,
}
use gogateway.Server.Gate.{limit_by-passes}

-- Every breaker of the store.
abbrev pub AllBreakers : (CircuitBreaker → Type 0) → BreakerStore → Type 0
AllBreakers P bs = (k : Text) (cb : CircuitBreaker) → lookup k bs.breakers ≡ some cb → P cb

get_or_create-AllBreakers :
    (P : CircuitBreaker → Type 0) (route_id url : Text) (cfg : CircuitBrkCfg) (bs : BreakerStore)
    → P (new_circuit_breaker cfg)
    → AllBreakers P bs
    → AllBreakers P (get_or_create route_id url cfg bs bs).0
get_or_create-AllBreakers P route_id url cfg bs new all j cb found =
    let key = breaker_key route_id url in
    let (pointer, law) =
      lookup-get_or_create route_id url cfg bs bs (λ k cb there. (cb, there)) j in
    elim (Bool-cases (text_eq key j)) [
      | inr other ↦ all j cb (ground arith)
      | inl same ↦ elim (Option-cases (lookup key bs.breakers)) [
        | inl absent ↦ let made : new_circuit_breaker cfg ≡ cb = ground arith in subst P made new
        | inr (old, there) ↦ let kept : old ≡ cb = ground arith in subst P kept (all key old there)
      ]
    ]

call_at-AllBreakers :
    (P : CircuitBreaker → Type 0) (c : Call) (key : Text) (bs : BreakerStore)
    → ((cb : CircuitBreaker) → P cb → P (step c cb))
    → AllBreakers P bs
    → AllBreakers P (call_at key c bs)
call_at-AllBreakers P c key bs keeps all j cb found =
    let law = lookup-call_at key j c bs in
    elim (Bool-cases (text_eq key j)) [
      | inr other ↦ all j cb (ground arith)
      | inl same ↦ elim (Option-cases (lookup j bs.breakers)) [
        | inl absent ↦ ground arith
        | inr (old, there) ↦
            let stepped : step c old ≡ cb = ground arith in
            subst P stepped (keeps old (all j old there))
      ]
    ]

-- New breakers have the property, and asking keeps it.
pub record IsStart (P : CircuitBreaker → Type 0) : Type 0 where
  pub new : (cfg : CircuitBrkCfg) → P (new_circuit_breaker cfg)
  pub ask : (now : Time) (cb : CircuitBreaker) → P cb → P (step (asked now) cb)
  pub succeed : (cb : CircuitBreaker) → P cb → P (step succeeded cb)

module _ {F : Type 0} (out : Outside F) (P : CircuitBreaker → Type 0) (start : IsStart P) where
  abbrev Holds : Server F × Admission → Type 0
  Holds t = AllBreakers P t.0.breaker_store

  Holds-if :
      (c : Bool) (t e : Server F × Admission) → Holds t → Holds e → Holds (if c then t else e)
  Holds-if true t e p q = p
  Holds-if false t e p q = q

  module _ (rd : Readings) (route : Route) where
    asked-Holds :
        (target : Url) (cfg : CircuitBrkCfg) (s : Server F)
        → AllBreakers P s.breaker_store
        → let (bs, key) =
            get_or_create route.id (out.url_string target) cfg s.breaker_store s.breaker_store in
          AllBreakers P (call_at key (asked rd.breaker_now) bs)
    asked-Holds target cfg s all =
        let url = out.url_string target in
        let (bs, key) = get_or_create route.id url cfg s.breaker_store s.breaker_store in
        call_at-AllBreakers P (asked rd.breaker_now) key bs (start.ask rd.breaker_now)
          (get_or_create-AllBreakers P route.id url cfg s.breaker_store (start.new cfg) all)

    Resolved-Holds :
        (r : Request) (w : StatusRecorder) (s : Server F) (t : Server F × Admission)
        → AllBreakers P s.breaker_store
        → Resolved out rd route r w s t
        → Holds t
    Resolved-Holds r w s _ all unavailable = all
    Resolved-Holds r w s _ all no_pick = all
    Resolved-Holds r w s _ all (unguarded target lb open') = all
    Resolved-Holds r w s _ all (goes_on target lb cfg guarded goes) = asked-Holds target cfg s all
    Resolved-Holds r w s _ all (turned_away target lb cfg guarded stays) =
        asked-Holds target cfg s all

    handle-Holds :
        (r : Request) (w : StatusRecorder) (s : Server F)
        → AllBreakers P s.breaker_store
        → Holds (handle out rd route r w s)
    unfolding handle check_rate_limit
    handle-Holds r w s all =
        let checked = authenticate out s route r w in
        let after = check_rate_limit out rd route checked.request checked.recorder s in
        let (same, within) =
          limit_by-passes out rd route.rate_limit route checked.request checked.recorder s in
        let still : AllBreakers P after.0.breaker_store = subst (AllBreakers P) (sym same) all in
        Holds-if checked.passed _ (s, answered checked.recorder)
          (Holds-if after.2 _ (after.0, answered after.1)
            (Resolved-Holds checked.request after.1 after.0 _ still
              (resolve-Resolved out rd route checked.request after.1 after.0))
            still)
          all

  pub begin-Holds :
      (rd : Readings) (r : Request) (writer : ResponseWriter) (s : Server F)
      → AllBreakers P s.breaker_store
      → Holds (begin out rd r writer s)
  unfolding begin
  begin-Holds rd r writer s all = elim (Option-cases (match s.router r)) [
    | inl missed ↦ rw (begin, missed) all
    | inr (route, found) ↦
        rw (begin, found)
          (handle-Holds rd route r (new_status_recorder writer) (count_in out s) all)
  ]

  -- What the breaker of a route is told keeps the property, if failures do.
  tell_breaker-Holds :
      (route : Route) (target : Url) (late : LateReadings) (code : ℤ) (s : Server F)
      → (leb_ℤ (pos 500) code ≡ true
          → (cb : CircuitBreaker) → P cb
          → P (step (failed late.failure_now late.failure_later) cb))
      → AllBreakers P s.breaker_store
      → AllBreakers P (tell_breaker out route target late code s).breaker_store
  unfolding tell_breaker
  tell_breaker-Holds route target late code s fail all =
      elim (Option-cases (enabled_breaker route)) [
        | inl unprotected ↦ rw (tell_breaker, unprotected) all
        | inr (cfg, protected) ↦
            let url = out.url_string target in
            let (bs, key) = get_or_create route.id url cfg s.breaker_store s.breaker_store in
            let known =
              get_or_create-AllBreakers P route.id url cfg s.breaker_store (start.new cfg) all in
            rw (tell_breaker, protected)
              (store-if (leb_ℤ (pos 500) code) _ _
                (λ bad.
                  call_at-AllBreakers P (failed late.failure_now late.failure_later) key bs
                    (fail bad) known)
                (λ fine.
                  store-if (ltb_ℤ (pos 0) code) (call_at key succeeded bs) bs
                    (λ some_code. call_at-AllBreakers P succeeded key bs start.succeed known)
                    (λ no_code. known)))
      ]
    where
      store-if :
          (c : Bool) (t e : BreakerStore)
          → (c ≡ true → AllBreakers P t)
          → (c ≡ false → AllBreakers P e)
          → AllBreakers P (if c then t else e)
      store-if true t e p q = p refl
      store-if false t e p q = q refl

  pub complete-Holds :
      (late : LateReadings) (f : InFlight) (run : ProxyRun) (s : Server F)
      → Fresh f.recorder
      → (leb_ℤ (pos 500) (first_code run.actions) ≡ true
          → (cb : CircuitBreaker) → P cb
          → P (step (failed late.failure_now late.failure_later) cb))
      → AllBreakers P s.breaker_store
      → AllBreakers P (complete out late f run s).0.breaker_store
  unfolding complete settle status
  complete-Holds late f run s fresh fail all = elim (Bool-cases run.aborted) [
    | inl broke ↦ rw (complete, broke) all
    | inr ran ↦
        let (coded, first) = perform_all-Fresh run.actions f.recorder fresh in
        rw (complete, ran, coded)
          (tell_breaker-Holds f.route f.target late (first_code run.actions) s fail all)
  ]
