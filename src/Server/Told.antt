-- ===== src/Server/Told.antt =====
-- One call of a breaker of the store, internal/server/server.go and
-- internal/middleware/circuitbreaker.go.
use gogateway.Base.{
  ◌≡◌, ◌⊎◌, refl, sym, ap, ◌∙◌, true, false, none, some, List, [], ◌∷◌, ◌++◌, if◌then◌else◌,
  Bool-cases, Option-cases, inl, inr, arith,
}
use mathlib.Core.Option
use gogateway.Base.Text.{Text, text_eq, text_eq_iff}
use gogateway.Base.Maps.{lookup}
use gogateway.Base.Clock.{Time}
use gogateway.Config.{CircuitBrkCfg}
use gogateway.Breaker.{CircuitBreaker, new_circuit_breaker, allow}
use gogateway.Breaker.History.{Call, asked, step, run}
use gogateway.BreakerStore.{BreakerStore, breaker_key, get_or_create, call_at}
use gogateway.Server.Handler.{allow_at}
use gogateway.Server.Admits.{breaker_of, allow_at-get_or_create}
use gogateway.BreakerStore.Laws.{lookup-get_or_create, lookup-call_at}

-- The pool has no breaker and was never used, or its breaker is where the calls lead a new one.
abbrev pub HasRun : Text → List Call → BreakerStore → Type 0
HasRun key calls bs =
    ((lookup key bs.breakers ≡ none) × (calls ≡ []))
    ⊎ ((cfg : CircuitBrkCfg) × (lookup key bs.breakers
          ≡ some (run calls (new_circuit_breaker cfg))))

run-append :
    (xs : List Call) (c : Call) (cb : CircuitBreaker) → run (xs ++ c ∷ []) cb ≡ step c (run xs cb)
unfolding run
run-append [] c cb = refl
run-append (x ∷ xs) c cb = run-append xs c (step x cb)

module _ (key : Text) (calls : List Call) (route_id url : Text) (cfg : CircuitBrkCfg)
    (bs : BreakerStore) where
  -- The pool has a breaker after `GetOrCreate`.
  get_or_create-there :
      text_eq (breaker_key route_id url) key ≡ true
      → HasRun key calls bs
      → (cfg' : CircuitBrkCfg) × (lookup key (get_or_create route_id url cfg bs bs).0.breakers
          ≡ some (run calls (new_circuit_breaker cfg')))
  unfolding run
  get_or_create-there hit has =
      let at = breaker_key route_id url in
      let (pointer, law) =
        lookup-get_or_create route_id url cfg bs bs (λ k cb there. (cb, there)) key in
      let same : lookup at bs.breakers ≡ lookup key bs.breakers =
        ap (λ (k : Text). lookup k bs.breakers) ((text_eq_iff at key).0 hit) in
      let found : lookup key (get_or_create route_id url cfg bs bs).0.breakers
          ≡ some (Option.get_or (lookup key bs.breakers) (new_circuit_breaker cfg)) =
        law ∙ rw (hit, same) refl in
      elim has [
        | inl (absent, unused) ↦ (cfg, found ∙ rw (absent, unused) refl)
        | inr (cfg', there) ↦ (cfg', found ∙ rw there refl)
      ]

  get_or_create-elsewhere :
      text_eq (breaker_key route_id url) key ≡ false
      → lookup key (get_or_create route_id url cfg bs bs).0.breakers ≡ lookup key bs.breakers
  get_or_create-elsewhere miss =
      let (pointer, law) =
        lookup-get_or_create route_id url cfg bs bs (λ k cb there. (cb, there)) key in
      law ∙ rw miss refl

pub HasRun-same :
    (key : Text) (calls : List Call) (bs bs' : BreakerStore)
    → lookup key bs'.breakers ≡ lookup key bs.breakers
    → HasRun key calls bs
    → HasRun key calls bs'
HasRun-same key calls bs bs' same (inl (absent, unused)) = inl (same ∙ absent, unused)
HasRun-same key calls bs bs' same (inr (cfg, there)) = inr (cfg, same ∙ there)

-- A call through the pointer that `GetOrCreate` returned.
abbrev pub appended : Text → Text → Call → List Call → List Call
appended at key c calls = if text_eq at key then calls ++ c ∷ [] else calls

pub told-HasRun :
    (key : Text) (calls : List Call) (route_id url : Text) (cfg : CircuitBrkCfg) (c : Call)
    (bs : BreakerStore)
    → HasRun key calls bs
    → let (bs', pointer) = get_or_create route_id url cfg bs bs in
      HasRun key (appended (breaker_key route_id url) key c calls) (call_at pointer c bs')
told-HasRun key calls route_id url cfg c bs has =
    let at = breaker_key route_id url in
    let (bs', k) = get_or_create route_id url cfg bs bs in
    let (pointer, law) =
      lookup-get_or_create route_id url cfg bs bs (λ k cb there. (cb, there)) key in
    let called : lookup key (call_at k c bs').breakers ≡ (
        if text_eq at key
        then Option.map (step c) (lookup key bs'.breakers)
        else lookup key bs'.breakers) =
      lookup-call_at k key c bs' ∙ rw pointer refl in
    elim (Bool-cases (text_eq at key)) [
      | inl hit ↦
          let (cfg', there) = get_or_create-there key calls route_id url cfg bs hit has in
          inr (
            cfg',
            called
                ∙ rw (hit, there) (ap some (sym (run-append calls c (new_circuit_breaker cfg')))),
          )
      | inr miss ↦ rw miss (
          HasRun-same key calls bs (call_at k c bs')
            (called ∙ rw miss (get_or_create-elsewhere key calls route_id url cfg bs miss)) has)
    ]

-- Without a call.
pub got-HasRun :
    (key : Text) (calls : List Call) (route_id url : Text) (cfg : CircuitBrkCfg) (bs : BreakerStore)
    → HasRun key calls bs
    → HasRun key calls (get_or_create route_id url cfg bs bs).0
got-HasRun key calls route_id url cfg bs has =
    elim (Bool-cases (text_eq (breaker_key route_id url) key)) [
      | inl hit ↦ inr (get_or_create-there key calls route_id url cfg bs hit has)
      | inr miss ↦
          HasRun-same key calls bs (get_or_create route_id url cfg bs bs).0
            (get_or_create-elsewhere key calls route_id url cfg bs miss) has
    ]

step-rejected :
    (now : Time) (cb : CircuitBreaker) → (allow now cb).1 ≡ false → step (asked now) cb ≡ cb
unfolding step allow
step-rejected now cb rejects = ground arith

-- A breaker that rejects a request is left as it was, and it was not a new one.
pub rejected-same :
    (key route_id url : Text) (cfg : CircuitBrkCfg) (now : Time) (bs : BreakerStore)
    → let (bs', pointer) = get_or_create route_id url cfg bs bs in
      allow_at pointer now bs' ≡ false
      → lookup key (call_at pointer (asked now) bs').breakers ≡ lookup key bs.breakers
unfolding new_circuit_breaker allow
rejected-same key route_id url cfg now bs rejects =
    let at = breaker_key route_id url in
    let (bs', k) = get_or_create route_id url cfg bs bs in
    let (pointer, law) =
      lookup-get_or_create route_id url cfg bs bs (λ k cb there. (cb, there)) key in
    let asks : (allow now (breaker_of bs route_id url cfg)).1 ≡ false =
      sym (allow_at-get_or_create route_id url cfg bs now) ∙ rejects in
    let called : lookup key (call_at k (asked now) bs').breakers ≡ (
        if text_eq at key
        then Option.map (step (asked now)) (lookup key bs'.breakers)
        else lookup key bs'.breakers) =
      lookup-call_at k key (asked now) bs' ∙ rw pointer refl in
    elim (Option-cases (lookup at bs.breakers)) [
      | inl absent ↦ let admits : true ≡ false = rw absent at asks in ground arith
      | inr (cb, there) ↦
          let stays = step-rejected now cb (rw there at asks) in
          elim (Bool-cases (text_eq at key)) [
            | inr miss ↦ called ∙ rw miss (law ∙ rw miss refl)
            | inl hit ↦
                let here : lookup key bs.breakers ≡ some cb =
                  ap (λ (j : Text). lookup j bs.breakers) (sym ((text_eq_iff at key).0 hit))
                  ∙ there in
                let found : lookup key bs'.breakers ≡ some cb = law ∙ rw (hit, there) refl in
                called ∙ rw (hit, found) (ap some stays ∙ sym here)
          ]
    ]
