-- ===== src/Server/Calls.antt =====
-- The calls that a run of internal/server/server.go makes of the limiter of
-- internal/middleware/ratelimit.go.
use gogateway.Base.{
  ℕ, ◌+◌, ◌≤◌, ◌<◌, ◌≡◌, refl, sym, ap, ◌∙◌, none, List, [], ◌∷◌, ◌++◌, Bool-cases, Option-cases,
  inl, inr, arith,
}
use mathlib.Core.Path.{subst}
use gogateway.Base.Int.{pos, ◌+ℤ◌}
use gogateway.Base.Clock.{Time, Duration}
use gogateway.Base.Text.{Text}
use gogateway.Base.Maps.{lookup}
use gogateway.Limiter.{Entries, allow_key}
use gogateway.Limiter.Entries.{kept}
use gogateway.Limiter.Sweep.{Op, request, tick}
use gogateway.Limiter.Quota.{requests_of, admitted_of, InWindow, window_quota}
use gogateway.Server.{Outside, Server, LateReadings}
use gogateway.Server.Handler.{
  Admission, InFlight, ProxyRun, enabled_breaker, settle, tell_breaker, complete,
}
use gogateway.Server.Export.{export_states}
use gogateway.Server.Runs.{
  State, Step, ends, starts, returns, sweeps, exports, Reachable, started, continued,
}
use gogateway.Server.Asked.{run_ops}
use gogateway.Server.Throttled.{begin_ops, Obeys, begin-Obeys}

run_ops-append : (xs ys : List Op) (m : Entries) → run_ops (xs ++ ys) m ≡ run_ops ys (run_ops xs m)
unfolding run_ops
run_ops-append [] ys m = refl
run_ops-append (request key limit window now later ∷ xs) ys m = run_ops-append xs ys _
run_ops-append (tick now ∷ xs) ys m = run_ops-append xs ys _

requests_of-append :
    (key : Text) (xs ys : List Op)
    → requests_of key (xs ++ ys) ≡ requests_of key xs + requests_of key ys
requests_of-append key [] ys = omega arith
requests_of-append key (request k limit window now later ∷ xs) ys =
    omega (arith, requests_of-append key xs ys)
requests_of-append key (tick now ∷ xs) ys = requests_of-append key xs ys

admitted_of-append :
    (key : Text) (xs ys : List Op) (m : Entries)
    → admitted_of key (xs ++ ys) m ≡ admitted_of key xs m + admitted_of key ys (run_ops xs m)
unfolding admitted_of run_ops
admitted_of-append key [] ys m = omega arith
admitted_of-append key (request k limit window now later ∷ xs) ys m =
    let rest = admitted_of-append key xs ys (allow_key k limit window now later m).0 in omega arith
admitted_of-append key (tick now ∷ xs) ys m = admitted_of-append key xs ys _

module _ {F : Type 0} (out : Outside F) where
  complete-keeps :
      (late : LateReadings) (f : InFlight) (run : ProxyRun) (s : Server F)
      → (complete out late f run s).0.rate_limiter ≡ s.rate_limiter
  unfolding complete settle tell_breaker
  complete-keeps late f run s = elim (Bool-cases run.aborted) [
    | inl gone ↦ rw (complete, gone) refl
    | inr over ↦ elim (Option-cases (enabled_breaker f.route)) [
      | inl unprotected ↦ rw (complete, over, tell_breaker, unprotected) refl
      | inr (cfg, protected) ↦ rw (complete, over, tell_breaker, protected) refl
    ]
  ]

module _ {F : Type 0} (out : Outside F) {Upstreams : ProxyRun → Type 0} where
  -- The limiter's calls in a step, and in a run.
  abbrev pub step_ops : {st st' : State F} → Step out Upstreams st st' → List Op
  step_ops (ends {s} rd late r h w begun stopped) = begin_ops out rd r h s
  step_ops (starts {s} rd r h f begun) = begin_ops out rd r h s
  step_ops (returns before after late f run may) = []
  step_ops (sweeps now) = tick now ∷ []
  step_ops exports = []

  abbrev pub run_calls :
      {start : Server F} {st : State F} → Reachable out Upstreams start st → List Op
  run_calls started = []
  run_calls (continued run few step) = run_calls run ++ step_ops step

  -- How many requests for the key that the in-memory limiter was asked for a step, or a run,
  -- forwards to an upstream.
  abbrev pub step_allowed : {st st' : State F} → Text → Step out Upstreams st st' → ℕ
  step_allowed key (ends rd late r h w begun stopped) = 0
  step_allowed key (starts {s} rd r h f begun) = requests_of key (begin_ops out rd r h s)
  step_allowed key (returns before after late f run may) = 0
  step_allowed key (sweeps now) = 0
  step_allowed key exports = 0

  abbrev pub allowed_of :
      {start : Server F} {st : State F} → Text → Reachable out Upstreams start st → ℕ
  allowed_of key started = 0
  allowed_of key (continued run few step) = allowed_of key run + step_allowed key step

  step-Follows :
      (key : Text) (st st' : State F) (step : Step out Upstreams st st')
      → (st'.server.rate_limiter ≡ run_ops (step_ops step) st.server.rate_limiter)
        × (step_allowed key step ≤ admitted_of key (step_ops step) st.server.rate_limiter)
  unfolding settle export_states run_ops
  step-Follows key _ _ (ends {s} {s'} rd late r h w begun stopped) =
      let (follows, allows) = begin-Obeys out rd key r h s in
      (ap (λ (x : Server F × Admission). x.0.rate_limiter) (sym begun) ∙ follows, omega arith)
  step-Follows key _ _ (starts {s} {s'} rd r h f begun) =
      let ops = begin_ops out rd r h s in
      let (follows, allows) =
        subst (Obeys out rd key s.rate_limiter ops) begun (begin-Obeys out rd key r h s) in
      (follows, allows)
  step-Follows key _ _ (returns {s} before after late f run may) =
      (complete-keeps out late f run s, omega arith)
  step-Follows key _ _ (sweeps {s} now) = (refl, omega arith)
  step-Follows key _ _ (exports {s}) = (refl, omega arith)

  run-Follows :
      (key : Text) (start : Server F) (st : State F) (run : Reachable out Upstreams start st)
      → (st.server.rate_limiter ≡ run_ops (run_calls run) start.rate_limiter)
        × (allowed_of key run ≤ admitted_of key (run_calls run) start.rate_limiter)
  unfolding run_ops admitted_of
  run-Follows key start _ started = (refl, omega arith)
  run-Follows key start _ (continued {st} {st'} run few step) =
      let (follows, counts) = run-Follows key start st run in
      let (follows', counts') = step-Follows key st st' step in
      let m = start.rate_limiter in
      let calls = run_calls run in
      let ops = step_ops step in
      let both = admitted_of-append key calls ops m in
      let here : step_allowed key step ≤ admitted_of key ops (run_ops calls m) =
        subst (λ (x : Entries). step_allowed key step ≤ admitted_of key ops x) follows counts' in
      (follows' ∙ ap (run_ops ops) follows ∙ sym (run_ops-append calls ops m), omega arith)

  -- At most `limit` forwarded requests were admitted by the in-memory limiter until the window that the
  -- first call for the key opens is over.
  pub allowed_of-le-limit :
      (start : Server F) (st : State F) (run : Reachable out Upstreams start st) (key : Text)
      (limit : ℕ) (window : Duration) (now later : Time) (ops : List Op)
      → run_calls run ≡ request key (pos limit) window now later ∷ ops
      → kept now (lookup key start.rate_limiter) ≡ none
      → InWindow key limit (now +ℤ window) ops
      → 1 + requests_of key ops < 9223372036854775808
      → allowed_of key run ≤ limit
  allowed_of-le-limit start st run key limit window now later ops calls gone inside few =
      let quota = window_quota key limit window now later ops start.rate_limiter gone inside few in
      let (follows, counts) = run-Follows key start st run in
      let admitted = ap (λ (os : List Op). admitted_of key os start.rate_limiter) calls ∙ quota in
      omega arith
