-- ===== src/Server/Asked.antt =====
-- One call of the rate limiter for a request, internal/server/server.go and
-- internal/middleware/ratelimit.go.
use gogateway.Base.{
  ◌≤◌, ◌≡◌, refl, sym, ap, ◌∙◌, Bool, true, false, Option, none, some, List, [], ◌∷◌, if◌then◌else◌,
  arith,
}
use mathlib.Core.Path.{subst}
use mathlib.Core.Option.{some-injective}
use gogateway.Base.Int.{ℤ}
use gogateway.Base.Clock.{Time, Duration}
use gogateway.Base.Text.{Text}
use gogateway.Config.{Route, RateLimitCfg}
use gogateway.Http.{Request, get}
use gogateway.Limiter.{Entries, Verdict, client_key, memory_allow, allow_key, clean_expired}
use gogateway.Limiter.Client.{adapt_request, resolve_client_id}
use gogateway.Limiter.Redis.{limiter_allow, redis_answer}
use gogateway.Limiter.Sweep.{Op, request, tick}
use gogateway.Limiter.Quota.{requests_of, admitted_of}
use gogateway.Server.{Readings}
use gogateway.Server.RateLimit.{ask_limiter}

unfoldable pub run_ops : List Op → Entries → Entries
run_ops [] m = m
run_ops (request key limit window now later ∷ ops) m =
    run_ops ops (allow_key key limit window now later m).0
run_ops (tick now ∷ ops) m = run_ops ops (clean_expired now m)

-- The call of the in-memory limiter, made unless Redis gave an answer.
abbrev pub op_unless : Text → ℤ → Duration → Time → Time → Option Verdict → List Op
op_unless key limit window now later (some v) = []
op_unless key limit window now later none = request key limit window now later ∷ []

abbrev fall_back : Text → ℤ → Duration → Time → Time → Entries → Option Verdict → Entries × Verdict
fall_back key limit window now later m (some v) = (m, v)
fall_back key limit window now later m none = allow_key key limit window now later m

-- A call that is allowed is one that the limiter admits.
abbrev pub Follows : Text → Entries → List Op → Entries → Bool → Type 0
Follows key m ops m' allowed =
    (m' ≡ run_ops ops m) × (allowed ≡ true → requests_of key ops ≤ admitted_of key ops m)

fall_back-Follows :
    (key k : Text) (limit : ℤ) (window : Duration) (now later : Time) (m : Entries)
    (answer : Option Verdict)
    → let (m', v) = fall_back k limit window now later m answer in
      Follows key m (op_unless k limit window now later answer) m' v.allowed
unfolding run_ops admitted_of
fall_back-Follows key k limit window now later m (some v) = (refl, λ allowed. omega arith)
fall_back-Follows key k limit window now later m none = (refl, λ allowed. ground arith)

option-some :
    {A B : Type 0} (o : Option A) (a : A) (n : B) (f : A → B)
    → o ≡ some a
    → (elim o as (λ (x : Option A). B) [ none ↦ n | some b ↦ f b ]) ≡ f a
option-some none a n f e = ground arith
option-some (some b) a n f e = ap f (some-injective b a e)

if-true : {A : Type 0} (c : Bool) (x y : A) → c ≡ true → (if c then x else y) ≡ x
if-true true x y e = refl
if-true false x y e = ground arith

module _ (rd : Readings) where
  abbrev pub client_of : Route → Request → Text
  client_of route r =
      resolve_client_id (adapt_request (λ name. get name r.header) r.remote_addr) route

  -- The call for a request of a route with this limit.
  abbrev pub ask_ops : RateLimitCfg → Route → Request → List Op
  ask_ops lim route r =
      op_unless (client_key route.id (client_of route r)) lim.requests lim.window rd.limiter_now
        rd.limiter_later
        (redis_answer rd.redis route.id (client_of route r) lim.requests lim.window)

  abbrev pub limit_ops : Option RateLimitCfg → Route → Request → List Op
  limit_ops none route r = []
  limit_ops (some lim) route r = if lim.enabled then ask_ops lim route r else []

  pub ask_limiter-Follows :
      (lim : RateLimitCfg) (route : Route) (r : Request) (m : Entries) (key : Text)
      → route.rate_limit ≡ some lim
      → lim.enabled ≡ true
      → let (m', v) = ask_limiter rd route r m in Follows key m (ask_ops lim route r) m' v.allowed
  unfolding ask_limiter limiter_allow memory_allow
  ask_limiter-Follows lim route r m key limited on =
      let client = client_of route r in
      let k = client_key route.id client in
      let answer = redis_answer rd.redis route.id client lim.requests lim.window in
      let asks : ask_limiter rd route r m
          ≡ fall_back k lim.requests lim.window rd.limiter_now rd.limiter_later m answer =
        option-some route.rate_limit lim _ _ limited ∙ if-true lim.enabled _ _ on ∙ chosen answer in
      subst (λ (x : Entries × Verdict). Follows key m (ask_ops lim route r) x.0 x.1.allowed)
        (sym asks)
        (fall_back-Follows key k lim.requests lim.window rd.limiter_now rd.limiter_later m answer)
    where
      chosen :
          (answer : Option Verdict)
          → (elim answer as (λ (x : Option Verdict). Entries × Verdict) [
            | some v ↦ (m, v)
            | none ↦
                allow_key
                  (client_key route.id (client_of route r))
                  lim.requests
                  lim.window
                  rd.limiter_now
                  rd.limiter_later
                  m
          ])
            ≡ fall_back
                (client_key route.id (client_of route r))
                lim.requests
                lim.window
                rd.limiter_now
                rd.limiter_later
                m
                answer
      chosen none = refl
      chosen (some v) = refl
