-- ===== src/Server/Valid.antt =====
-- The breakers of internal/server/server.go are valid in every state that the server comes through.
use gogateway.Base.{◌≡◌, Option, some, List, arith}
use mathlib.Core.Path.{subst}
use gogateway.Base.Int.{IsInt64}
use gogateway.Base.Text.{Text}
use gogateway.Base.Maps.{lookup}
use gogateway.Config.{Config, CircuitBrkCfg}
use gogateway.Http.{Url}
use gogateway.KeyStore.{KeyFileEntry}
use gogateway.Breaker.{CircuitBreaker, new_circuit_breaker, allow, record_failure, record_success}
use gogateway.Breaker.History.{Call, asked, failed, succeeded, step}
use gogateway.Breaker.Invariant.{IsValid, new-IsValid, step-IsValid}
use gogateway.Server.{Outside, Server}
use gogateway.Server.Handler.{ProxyRun}
use gogateway.Server.Start.{Surroundings, new}
use gogateway.Server.Runs.{State, Reachable}
use gogateway.Server.Breakers.{IsStart}
use gogateway.Server.Available.{Reachable-Holds, new-breakers}

pub config-step : (c : Call) (cb : CircuitBreaker) → (step c cb).config ≡ cb.config
unfolding step allow record_failure record_success
config-step (asked now) cb = ground arith
config-step (failed now later) cb = ground arith
config-step succeeded cb = ground arith

-- The breaker is valid if its threshold is an integer of 64 bits.
abbrev ValidIfFits : CircuitBreaker → Type 0
ValidIfFits cb = IsInt64 cb.config.threshold → IsValid cb

step-ValidIfFits : (c : Call) (cb : CircuitBreaker) → ValidIfFits cb → ValidIfFits (step c cb)
step-ValidIfFits c cb valid fits =
    step-IsValid c cb
      (valid (subst (λ (x : CircuitBrkCfg). IsInt64 x.threshold) (config-step c cb) fits))

ValidIfFits-IsStart : IsStart ValidIfFits
unfolding new_circuit_breaker
ValidIfFits-IsStart = record {
  new = λ cfg fits. new-IsValid cfg fits;
  ask = λ now cb valid. step-ValidIfFits (asked now) cb valid;
  succeed = λ cb valid. step-ValidIfFits succeeded cb valid;
}

-- In every state that a server comes through, however requests interleave and whatever the upstreams
-- do, each breaker of its store whose threshold is a 64-bit integer is valid: closed, it has fewer
-- failures than its threshold (or none) and no opening time; half-open, it has no failure.
pub breakers-IsValid :
    {F : Type 0} (out : Outside F) (parse_url : Text → Option Url)
    (unmarshal_keys : Text → Option (List KeyFileEntry)) (cfg : Config) (around : Surroundings)
    (Upstreams : ProxyRun → Type 0) (start : Server F) (st : State F) (key : Text)
    (cb : CircuitBreaker)
    → new out parse_url unmarshal_keys cfg around ≡ some start
    → Reachable out Upstreams start st
    → lookup key st.server.breaker_store.breakers ≡ some cb
    → IsInt64 cb.config.threshold
    → IsValid cb
breakers-IsValid out parse_url unmarshal_keys cfg around Upstreams start st key cb made reached
      there fits =
    let (all, fresh) =
      Reachable-Holds out Upstreams ValidIfFits ValidIfFits-IsStart
        (λ run late may bad b valid.
          step-ValidIfFits (failed late.failure_now late.failure_later) b valid)
        start st reached
        (new-breakers out parse_url unmarshal_keys cfg around start made ValidIfFits) in
    all key cb there fits
