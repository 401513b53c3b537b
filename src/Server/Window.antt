-- ===== src/Server/Window.antt =====
-- How many requests of a client internal/server/server.go forwards in one window of the limiter of
-- internal/middleware/ratelimit.go.
use gogateway.Base.{
  ℕ, ◌+◌, ◌≤◌, ◌<◌, ◌≡◌, sym, ap, ◌∙◌, Bool, true, none, some, List, [], ◌∷◌, if◌then◌else◌,
  Bool-cases, Option-cases, inl, inr, arith,
}
use mathlib.Core.Path.{subst}
use gogateway.Base.Int.{pos, ◌+ℤ◌}
use gogateway.Base.Clock.{Time, Duration}
use gogateway.Base.Text.{Text, text_eq}
use gogateway.Base.Maps.{lookup}
use gogateway.Config.{Route, RateLimitCfg}
use gogateway.Http.{Request, Header}
use gogateway.Router.{match}
use gogateway.Limiter.{client_key}
use gogateway.Limiter.Entries.{kept}
use gogateway.Limiter.Redis.{redis_answer}
use gogateway.Limiter.Sweep.{Op, request}
use gogateway.Limiter.Quota.{one_if, requests_of, InWindow}
use gogateway.Server.{Outside, Server, Readings}
use gogateway.Server.Recorder.{StatusRecorder, new_status_recorder}
use gogateway.Server.Authenticate.{authenticate}
use gogateway.Server.RateLimit.{check_rate_limit}
use gogateway.Server.Handler.{
  Admission, InFlight, ProxyRun, answered, forwarded, resolve, handle, begin, count_in,
}
use gogateway.Server.Runs.{
  State, Step, ends, starts, returns, sweeps, exports, new_writer, Reachable, started, continued,
}
use gogateway.Server.Admits.{
  IfForwarded, IfForwarded-if, IfForwarded-map, BreakerAdmits, resolve-IfForwarded,
}
use gogateway.Server.Asked.{client_of, ask_ops, limit_ops, op_unless}
use gogateway.Server.Throttled.{handle_ops, begin_ops}
use gogateway.Server.Calls.{run_calls, step_allowed, allowed_of, allowed_of-le-limit}

-- The key of the limiter for a request: its client and its route.
abbrev pub key_of : Readings → InFlight → Text
key_of rd f = client_key f.route.id (client_of rd f.route f.request)

module _ {F : Type 0} (out : Outside F) (rd : Readings) where
  -- The limiter's calls for a request that is forwarded are those for it and its route.
  handle-ops :
      (route : Route) (r : Request) (w : StatusRecorder) (s : Server F)
      → IfForwarded
          (λ f. handle_ops out rd s route r w ≡ limit_ops rd f.route.rate_limit f.route f.request)
          (handle out rd route r w s).1
  unfolding handle check_rate_limit
  handle-ops route r w s =
      let P : InFlight → Type 0 =
        λ f. handle_ops out rd s route r w ≡ limit_ops rd f.route.rate_limit f.route f.request in
      let checked = authenticate out s route r w in
      let after = check_rate_limit out rd route checked.request checked.recorder s in
      IfForwarded-if P checked.passed _ (s, answered checked.recorder)
        (λ passed.
          IfForwarded-if P after.2 _ (after.0, answered after.1)
            (λ within.
              IfForwarded-map
                (λ f.
                  (f.route ≡ route)
                  × (f.request ≡ checked.request)
                  × (f.recorder ≡ after.1)
                  × BreakerAdmits out rd after.0 f)
                P (resolve out rd route checked.request after.1 after.0).1
                (λ f (on_route, of_request, by_recorder, admits).
                  ap
                    (λ (c : Bool).
                      if c then limit_ops rd route.rate_limit route checked.request else [])
                    passed
                  ∙ ap (λ (x : Route). limit_ops rd x.rate_limit x checked.request) (sym on_route)
                  ∙ ap (limit_ops rd f.route.rate_limit f.route) (sym of_request))
                (resolve-IfForwarded out rd route checked.request after.1 after.0))
            (λ over. tt))
        (λ refused. tt)

  begin-ops :
      (r : Request) (h : Header) (s : Server F) (f : InFlight)
      → (begin out rd r (new_writer h) s).1 ≡ forwarded f
      → begin_ops out rd r h s ≡ limit_ops rd f.route.rate_limit f.route f.request
  unfolding begin
  begin-ops r h s f e = elim (Option-cases (match s.router r)) [
    | inl missed ↦ ground arith
    | inr (route, found) ↦
        let w = new_status_recorder (new_writer h) in
        let counted = count_in out s in
        let handled : (handle out rd route r w counted).1 ≡ forwarded f = rw (begin, found) at e in
        rw found (
          subst
            (IfForwarded (λ f'.
              handle_ops out rd counted route r w
              ≡ limit_ops rd f'.route.rate_limit f'.route f'.request))
            handled (handle-ops route r w counted))
  ]

-- The route has a limit, and Redis gives no answer for the request.
abbrev pub ByMemory : Readings → InFlight → Type 0
ByMemory rd f =
    (lim : RateLimitCfg) × (f.route.rate_limit ≡ some lim)
    × (lim.enabled ≡ true)
    × (redis_answer rd.redis f.route.id (client_of rd f.route f.request) lim.requests lim.window
        ≡ none)

requests_of-limit_ops :
    (rd : Readings) (f : InFlight) (key : Text)
    → (text_eq (key_of rd f) key ≡ true → ByMemory rd f)
    → one_if (text_eq (key_of rd f) key)
      ≤ requests_of key (limit_ops rd f.route.rate_limit f.route f.request)
requests_of-limit_ops rd f key memory = elim (Bool-cases (text_eq (key_of rd f) key)) [
  | inr other ↦ rw other (omega arith)
  | inl same ↦
      let (lim, limited, on, silent) = memory same in
      let asked : limit_ops rd f.route.rate_limit f.route f.request
          ≡ request (key_of rd f) lim.requests lim.window rd.limiter_now rd.limiter_later ∷ [] =
        ap (λ o. limit_ops rd o f.route f.request) limited
        ∙ ap (λ (c : Bool). if c then ask_ops rd lim f.route f.request else []) on
        ∙ ap (op_unless (key_of rd f) lim.requests lim.window rd.limiter_now rd.limiter_later)
            silent in
      subst (λ (os : List Op). one_if (text_eq (key_of rd f) key) ≤ requests_of key os) (sym asked)
        (omega arith)
]

module _ {F : Type 0} (out : Outside F) {Upstreams : ProxyRun → Type 0} where
  -- Whether a step, or a run, forwards requests for the key on the word of the in-memory limiter only.
  abbrev StepByMemory : {st st' : State F} → Text → Step out Upstreams st st' → Type 0
  StepByMemory key (ends rd late r h w begun stopped) = Unit
  StepByMemory key (starts rd r h f begun) = text_eq (key_of rd f) key ≡ true → ByMemory rd f
  StepByMemory key (returns before after late f run may) = Unit
  StepByMemory key (sweeps now) = Unit
  StepByMemory key exports = Unit

  abbrev pub RunsByMemory :
      {start : Server F} {st : State F} → Text → Reachable out Upstreams start st → Type 0
  RunsByMemory key started = Unit
  RunsByMemory key (continued run few step) = RunsByMemory key run × StepByMemory key step

  -- How many requests for the key a step, or a run, forwards to an upstream.
  abbrev step_forwards : {st st' : State F} → Text → Step out Upstreams st st' → ℕ
  step_forwards key (ends rd late r h w begun stopped) = 0
  step_forwards key (starts rd r h f begun) = one_if (text_eq (key_of rd f) key)
  step_forwards key (returns before after late f run may) = 0
  step_forwards key (sweeps now) = 0
  step_forwards key exports = 0

  abbrev pub forwards_of :
      {start : Server F} {st : State F} → Text → Reachable out Upstreams start st → ℕ
  forwards_of key started = 0
  forwards_of key (continued run few step) = forwards_of key run + step_forwards key step

  step_forwards-le-allowed :
      (key : Text) (st st' : State F) (step : Step out Upstreams st st')
      → StepByMemory key step
      → step_forwards key step ≤ step_allowed out key step
  step_forwards-le-allowed key _ _ (ends rd late r h w begun stopped) memory = omega arith
  step_forwards-le-allowed key _ _ (starts {s} rd r h f begun) memory =
      let ops = begin-ops out rd r h s f (ap (λ (x : Server F × Admission). x.1) begun) in
      subst (λ (os : List Op). one_if (text_eq (key_of rd f) key) ≤ requests_of key os) (sym ops)
        (requests_of-limit_ops rd f key memory)
  step_forwards-le-allowed key _ _ (returns before after late f run may) memory = omega arith
  step_forwards-le-allowed key _ _ (sweeps now) memory = omega arith
  step_forwards-le-allowed key _ _ exports memory = omega arith

  forwards_of-le-allowed :
      (key : Text) (start : Server F) (st : State F) (run : Reachable out Upstreams start st)
      → RunsByMemory key run
      → forwards_of key run ≤ allowed_of out key run
  forwards_of-le-allowed key start _ started memory = omega arith
  forwards_of-le-allowed key start _ (continued {st} {st'} run few step) (before, here) =
      let all = forwards_of-le-allowed key start st run before in
      let one = step_forwards-le-allowed key st st' step here in omega arith

  -- Of the requests of a client to a route whose first call of the in-memory limiter finds no live
  -- entry, at most `limit` are forwarded to upstreams until the window that this call opens is over,
  -- in every run of the server: however requests of this client and others interleave, with whatever
  -- answers of the upstreams, clean-ups and exports in between. The key is that of the client and
  -- the route. Redis gives no answer for the requests with this key that are forwarded, and their
  -- route has a limit; the calls of the in-memory limiter for the key have the limit `limit` and come
  -- in the window, and are fewer than 2 ^ 63.
  pub forwards_of-le-limit :
      (start : Server F) (st : State F) (run : Reachable out Upstreams start st) (key : Text)
      (limit : ℕ) (window : Duration) (now later : Time) (ops : List Op)
      → run_calls out run ≡ request key (pos limit) window now later ∷ ops
      → RunsByMemory key run
      → kept now (lookup key start.rate_limiter) ≡ none
      → InWindow key limit (now +ℤ window) ops
      → 1 + requests_of key ops < 9223372036854775808
      → forwards_of key run ≤ limit
  forwards_of-le-limit start st run key limit window now later ops calls memory gone inside few =
      let most =
        allowed_of-le-limit out start st run key limit window now later ops calls gone inside few in
      let all = forwards_of-le-allowed key start st run memory in omega arith
