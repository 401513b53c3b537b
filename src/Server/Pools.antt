-- ===== src/Server/Pools.antt =====
-- The breaker of each pool of internal/server/server.go after a run of the server.
use gogateway.Base.{◌≡◌, ◌⊎◌, refl, Option, none, some, List, [], Bool-cases, inl, inr}
use mathlib.Core.Path.{subst}
use gogateway.Base.Text.{Text}
use gogateway.Base.Maps.{lookup}
use gogateway.Config.{Config, CircuitBrkCfg}
use gogateway.Http.{Url}
use gogateway.KeyStore.{KeyFileEntry}
use gogateway.Breaker.{new_circuit_breaker}
use gogateway.Breaker.History.{Call, run}
use gogateway.Server.{Outside, Server, LateReadings}
use gogateway.Server.Recorder.{status, perform_all}
use gogateway.Server.Handler.{InFlight, ProxyRun, settle, complete}
use gogateway.Server.Start.{Surroundings, new}
use gogateway.Server.Export.{export_states}
use gogateway.Server.Runs.{
  State, Step, ends, starts, returns, sweeps, exports, new_writer, Reachable, started, continued,
}
use gogateway.Server.Available.{new-lookup}
use gogateway.Server.Told.{HasRun}
use gogateway.Server.History.{
  asked_calls, returned_calls, Tracks, begin-Tracks, answered-Tracks, tell_breaker-HasRun,
}

module _ {F : Type 0} (out : Outside F) (key : Text) where
  complete-HasRun :
      (late : LateReadings) (f : InFlight) (proxied : ProxyRun) (calls : List Call) (s : Server F)
      → HasRun key calls s.breaker_store
      → HasRun key
          (returned_calls out key late f proxied calls)
          (complete out late f proxied s).0.breaker_store
  unfolding complete settle
  complete-HasRun late f proxied calls s has = elim (Bool-cases proxied.aborted) [
    | inl gone ↦ rw (complete, gone) has
    | inr over ↦
        rw (complete, over)
          (tell_breaker-HasRun out key late f.route f.target
            (status (perform_all proxied.actions f.recorder)) calls s has)
  ]

  module _ {Upstreams : ProxyRun → Type 0} where
    -- The calls to the breaker of the pool in a run: a request that is forwarded has asked it, and
    -- when the proxy returns it is told the outcome.
    abbrev step_calls : {st st' : State F} → Step out Upstreams st st' → List Call → List Call
    step_calls (ends rd late r h w begun stopped) calls = calls
    step_calls (starts rd r h f begun) calls = asked_calls out key rd f calls
    step_calls (returns before after late f proxied may) calls =
        returned_calls out key late f proxied calls
    step_calls (sweeps now) calls = calls
    step_calls exports calls = calls

    abbrev pub pool_calls :
        {start : Server F} {st : State F} → Reachable out Upstreams start st → List Call
    pool_calls started = []
    pool_calls (continued before few step) = step_calls step (pool_calls before)

    step-HasRun :
        (st st' : State F) (step : Step out Upstreams st st') (calls : List Call)
        → HasRun key calls st.server.breaker_store
        → HasRun key (step_calls step calls) st'.server.breaker_store
    unfolding settle export_states
    step-HasRun _ _ (ends {s} {s'} {fs} {admission} rd late r h w begun stopped) calls has =
        answered-Tracks out key rd calls w (s', admission) stopped
          (subst (Tracks out key rd calls) begun
            (begin-Tracks out key rd r (new_writer h) calls s has))
    step-HasRun _ _ (starts {s} {s'} rd r h f begun) calls has =
        subst (Tracks out key rd calls) begun (begin-Tracks out key rd r (new_writer h) calls s has)
    step-HasRun _ _ (returns {s} before after late f proxied may) calls has =
        complete-HasRun late f proxied calls s has
    step-HasRun _ _ (sweeps now) calls has = has
    step-HasRun _ _ exports calls has = has

    run-HasRun :
        (start : Server F) (st : State F) (reached : Reachable out Upstreams start st)
        → HasRun key [] start.breaker_store
        → HasRun key (pool_calls reached) st.server.breaker_store
    run-HasRun start _ started has = has
    run-HasRun start _ (continued {st} {st'} before few step) has =
        step-HasRun st st' step (pool_calls before) (run-HasRun start st before has)

-- In every run of a server from its start, however requests interleave, the breaker that the store
-- has for a pool is where the calls for the pool alone lead a new breaker: each forwarded request of
-- the pool asked it, and each that the proxy returned without a panic told it a failure if the code
-- was 500 or more and a success if another code was sent. Without a breaker there were no calls.
pub pool-HasRun :
    {F : Type 0} (out : Outside F) (parse_url : Text → Option Url)
    (unmarshal_keys : Text → Option (List KeyFileEntry)) (cfg : Config) (around : Surroundings)
    (Upstreams : ProxyRun → Type 0) (start : Server F) (st : State F) (key : Text)
    (reached : Reachable out Upstreams start st)
    → new out parse_url unmarshal_keys cfg around ≡ some start
    → ((lookup key st.server.breaker_store.breakers ≡ none) × (pool_calls out key reached ≡ []))
      ⊎ ((brk : CircuitBrkCfg) × (lookup key st.server.breaker_store.breakers
            ≡ some (run (pool_calls out key reached) (new_circuit_breaker brk))))
pool-HasRun out parse_url unmarshal_keys cfg around Upstreams start st key reached made =
    run-HasRun out key start st reached
      (inl (new-lookup out parse_url unmarshal_keys cfg around start made key, refl))
