-- ===== src/Server/Outcome.antt =====
-- What internal/server/server.go tells a breaker after the proxy has returned.

use gogateway.Base.{◌≡◌, refl, ◌∙◌, Bool, true, false, some, if◌then◌else◌, arith}
use gogateway.Base.Int.{ℤ, pos, ltb_ℤ, leb_ℤ}
use gogateway.Base.Text.{Text, text_eq, text_eq_refl, text_eq_iff}
use gogateway.Base.Maps.{lookup}
use gogateway.Config.{CircuitBrkCfg}
use gogateway.Breaker.{CircuitBreaker, record_failure, record_success}
use gogateway.Breaker.History.{failed, succeeded, step}
use gogateway.BreakerStore.{BreakerStore, breaker_key, get_or_create, call_at}
use gogateway.BreakerStore.Laws.{lookup-get_or_create, lookup-call_at}
use gogateway.Server.{Outside, Server, LateReadings}
use gogateway.Server.Recorder.{status, first_code, Fresh, perform_all-Fresh}
use gogateway.Server.Handler.{InFlight, ProxyRun, enabled_breaker, settle, tell_breaker, complete}
use gogateway.Server.Admits.{breaker_of}

-- The breaker after a response with a code.
abbrev pub after_response : LateReadings → ℤ → CircuitBreaker → CircuitBreaker
after_response late code cb =
    if leb_ℤ (pos 500) code
    then record_failure late.failure_now late.failure_later cb
    else if ltb_ℤ (pos 0) code
    then record_success cb
    else cb

else-eq :
    {A : Type 0} (c : Bool) (a x y : A)
    → (c ≡ false → x ≡ y)
    → (if c then a else x) ≡ (if c then a else y)
else-eq true a x y h = refl
else-eq false a x y h = h refl

module _ (late : LateReadings) (key : Text) (bs : BreakerStore) (cb : CircuitBreaker) where
  lookup-told :
      (code : ℤ) (j : Text)
      → lookup key bs.breakers ≡ some cb
      → lookup j
          (if leb_ℤ (pos 500) code
            then call_at key (failed late.failure_now late.failure_later) bs
            else if ltb_ℤ (pos 0) code
            then call_at key succeeded bs
            else bs).breakers
        ≡ (if text_eq key j then some (after_response late code cb) else lookup j bs.breakers)
  unfolding step
  lookup-told code j found = ground (
    arith,
    text_eq_iff key j,
    lookup-call_at key j (failed late.failure_now late.failure_later) bs,
    lookup-call_at key j succeeded bs,
  )

module _ {F : Type 0} (out : Outside F) where
  tell_breaker-eq :
      (f : InFlight) (late : LateReadings) (code : ℤ) (s : Server F) (cfg : CircuitBrkCfg)
      (j : Text)
      → enabled_breaker f.route ≡ some cfg
      → let url = out.url_string f.target in
        lookup j (tell_breaker out f.route f.target late code s).breaker_store.breakers ≡ (
          if text_eq (breaker_key f.route.id url) j
          then some (after_response late code (breaker_of s.breaker_store f.route.id url cfg))
          else lookup j s.breaker_store.breakers)
  unfolding tell_breaker
  tell_breaker-eq f late code s cfg j on =
      let url = out.url_string f.target in
      let key = breaker_key f.route.id url in
      let bs = s.breaker_store in
      let (bs', pointer) = get_or_create f.route.id url cfg bs bs in
      let laws = lookup-get_or_create f.route.id url cfg bs bs (λ k cb there. (cb, there)) in
      let (same, found) = laws key in
      let (same', others) = laws j in
      let here : lookup key bs'.breakers ≡ some (breaker_of bs f.route.id url cfg) =
        found ∙ rw text_eq_refl in
      rw (tell_breaker, on, same)
        (lookup-told late key bs' (breaker_of bs f.route.id url cfg) code j here
          ∙ else-eq (text_eq key j) _ _ _ (λ other. others ∙ rw other))

  -- When the proxy returns, the breaker of the upstream takes the first code of the response: a
  -- failure from 500 on, a success from 1 on, nothing if no code was sent. No other breaker changes.
  -- The route has breakers, the proxy did not panic, and nothing was written before it was called.
  pub lookup-complete :
      (f : InFlight) (late : LateReadings) (run : ProxyRun) (s : Server F) (cfg : CircuitBrkCfg)
      (j : Text)
      → enabled_breaker f.route ≡ some cfg
      → run.aborted ≡ false
      → Fresh f.recorder
      → let url = out.url_string f.target in
        let code = first_code run.actions in
        lookup j (complete out late f run s).0.breaker_store.breakers ≡ (
          if text_eq (breaker_key f.route.id url) j
          then some (after_response late code (breaker_of s.breaker_store f.route.id url cfg))
          else lookup j s.breaker_store.breakers)
  unfolding complete settle status
  lookup-complete f late run s cfg j on ran fresh =
      let (coded, first) = perform_all-Fresh run.actions f.recorder fresh in
      rw (complete, ran, coded) (tell_breaker-eq f late (first_code run.actions) s cfg j on)

  -- If the proxy panics, the store of breakers is as it was: no breaker learns of the outcome.
  complete-aborted :
      (f : InFlight) (late : LateReadings) (run : ProxyRun) (s : Server F)
      → run.aborted ≡ true
      → (complete out late f run s).0.breaker_store ≡ s.breaker_store
  unfolding complete settle
  complete-aborted f late run s broke = rw (complete, broke)
