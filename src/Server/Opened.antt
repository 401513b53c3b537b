-- ===== src/Server/Opened.antt =====
-- Why a breaker of internal/server/server.go is open.
use gogateway.Base.{
  ℕ, ◌<◌, ◌≡◌, refl, sym, ap, ◌∙◌, Bool, true, false, ◌||◌, Option, some, List, [], ◌∷◌, inl, inr,
  arith,
}
use mathlib.Core.Option.{some-injective}
use gogateway.Base.Int.{pos, max_int, ◌≤ℤ◌}
use gogateway.Base.Text.{Text}
use gogateway.Base.Maps.{lookup}
use gogateway.Config.{Config, CircuitBrkCfg}
use gogateway.Http.{Url}
use gogateway.KeyStore.{KeyFileEntry}
use gogateway.Breaker.{CircuitBreaker, state_open, new_circuit_breaker}
use gogateway.Breaker.History.{Call, step, run}
use gogateway.Breaker.Trip.{HasBurst, ever_open, is_open, opens_iff_burst}
use gogateway.Server.{Outside, Server}
use gogateway.Server.Handler.{ProxyRun}
use gogateway.Server.Start.{Surroundings, new}
use gogateway.Server.Runs.{State, Reachable}
use gogateway.Server.Valid.{config-step}
use gogateway.Server.Pools.{pool_calls, pool-HasRun}

config-run : (cs : List Call) (cb : CircuitBreaker) → (run cs cb).config ≡ cb.config
unfolding run
config-run [] cb = refl
config-run (c ∷ cs) cb = config-run cs (step c cb) ∙ config-step c cb

ever_open-run :
    (cs : List Call) (cb : CircuitBreaker) → (run cs cb).state ≡ state_open → ever_open cs cb ≡ true
unfolding run ever_open
ever_open-run [] cb open' = rw open' refl
ever_open-run (c ∷ cs) cb open' =
    rw (ever_open-run cs (step c cb) open') (or_true (is_open cb.state))
  where
    or_true : (b : Bool) → (b || true) ≡ true
    or_true true = refl
    or_true false = refl

-- In every run of a server from its start, however requests interleave, a breaker with a positive
-- threshold is open only if some stretch of the calls of its pool has that many failures and no
-- success: it never opens on account of another pool, nor of failures with a success between them.
pub open-HasBurst :
    {F : Type 0} (out : Outside F) (parse_url : Text → Option Url)
    (unmarshal_keys : Text → Option (List KeyFileEntry)) (cfg : Config) (around : Surroundings)
    (Upstreams : ProxyRun → Type 0) (start : Server F) (st : State F) (key : Text)
    (reached : Reachable out Upstreams start st) (cb : CircuitBreaker) (k : ℕ)
    → new out parse_url unmarshal_keys cfg around ≡ some start
    → lookup key st.server.breaker_store.breakers ≡ some cb
    → cb.state ≡ state_open
    → cb.config.threshold ≡ pos k
    → pos k ≤ℤ max_int
    → 0 < k
    → HasBurst k (pool_calls out key reached)
unfolding new_circuit_breaker
open-HasBurst out parse_url unmarshal_keys cfg around Upstreams start st key reached cb k made there
      open' same fits positive =
    let calls = pool_calls out key reached in
    elim (pool-HasRun out parse_url unmarshal_keys cfg around Upstreams start st key reached made) [
      | inl (absent, unused) ↦ ground arith
      | inr (brk, found) ↦
          let fresh = new_circuit_breaker brk in
          let cb-eq : cb ≡ run calls fresh =
            some-injective cb (run calls fresh) (sym there ∙ found) in
          let ends_open = ap (λ (b : CircuitBreaker). b.state) (sym cb-eq) ∙ open' in
          let threshold : brk.threshold ≡ pos k =
            ap (λ (c : CircuitBrkCfg). c.threshold) (sym (config-run calls fresh))
            ∙ ap (λ (b : CircuitBreaker). b.config.threshold) (sym cb-eq)
            ∙ same in
          (opens_iff_burst k brk threshold fits positive calls).0
            (ever_open-run calls fresh ends_open)
    ]
