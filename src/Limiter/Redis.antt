-- ===== src/Limiter/Redis.antt =====
-- The Redis backend, `CheckRateLimit` of internal/store/redis.go with its Lua script, and the
-- `RateLimiter` of internal/middleware/ratelimit.go over both backends.
pub mod Window
use gogateway.Base.{
  ◌≡◌, refl, Bool, true, false, Option, none, some, List, [], ◌∷◌, ◌++◌, if◌then◌else◌, arith,
}
use gogateway.Base.Int.{ℤ, pos, pos_part, neg_part, ◌-ℤ◌, ◌*ℤ◌, ◌≤ℤ◌, ltb_ℤ, leb_ℤ, quot, wrap64}
use gogateway.Base.Clock.{Time, Duration}
use gogateway.Base.Text.{Text, text, colon}
use gogateway.Config.{Route, RateLimitCfg}
use gogateway.Limiter.{Entries, Verdict, memory_allow}

-- The three Redis commands of the script, over the server's own state.
pub record Commands (Db : Type 0) : Type 0 where
  pub incr : Text → Db → ℤ × Db
  pub pexpire : Text → ℤ → Db → Db
  pub pttl : Text → Db → ℤ

pub record ScriptReply : Type 0 where
  pub flag : ℤ
  pub remaining : ℤ
  pub ttl : ℤ

abbrev pub eqb_ℤ : ℤ → ℤ → Bool
eqb_ℤ a b = if leb_ℤ a b then leb_ℤ b a else false

module _ {Db : Type 0} (redis : Commands Db) where
  -- The Lua script. Redis runs it atomically.
  unfoldable pub rate_script : Text → ℤ → ℤ → Db → ScriptReply × Db
  rate_script key limit window db =
      let (count, counted) = redis.incr key db in
      let timed = if eqb_ℤ count (pos 1) then redis.pexpire key window counted else counted in
      let left = limit -ℤ count in
      let remaining = if ltb_ℤ left (pos 0) then pos 0 else left in
      let pttl = redis.pttl key timed in
      let ttl = if ltb_ℤ pttl (pos 0) then pos 0 else pttl in
      if leb_ℤ count limit
      then (record { flag = pos 1; remaining = remaining; ttl = ttl }, timed)
      else (record { flag = pos 0; remaining = remaining; ttl = ttl }, timed)

-- A value of the type `any` that the client library returns.
pub data Any : Type 0 where
  int64 : ℤ → Any
  int : ℤ → Any
  float64 : ℤ → Any
  other : Any

-- `toInt`; of a float it has the integer to which Go's conversion truncates it.
unfoldable pub to_int : Any → ℤ
to_int (int64 n) = n
to_int (int n) = n
to_int (float64 n) = n
to_int other = pos 0

-- What `script.Run(…).Result()` gives.
pub data RunResult : Type 0 where
  failure : RunResult
  slice : List Any → RunResult
  not_slice : RunResult

unfoldable pub redis_key : Text → Text → Text
redis_key route_id client_id = text "rate:" ++ (route_id ++ colon ∷ client_id)

-- window.Milliseconds()
unfoldable pub milliseconds : Duration → ℤ
milliseconds d = quot d 1000000

-- The part of `CheckRateLimit` after the script: `none` is an error.
unfoldable pub read_result : RunResult → Option Verdict
read_result failure = none
read_result not_slice = none
read_result (slice (a ∷ b ∷ c ∷ rest)) = some (record {
  allowed = eqb_ℤ (to_int a) (pos 1);
  remaining = to_int b;
  reset = wrap64 (to_int c *ℤ pos 1000000);
})
read_result (slice items) = none

-- `run key limit windowMs` is the call of the script.
unfoldable pub check_rate_limit :
    (Text → ℤ → ℤ → RunResult) → Text → Text → ℤ → Duration → Option Verdict
check_rate_limit run route_id client_id limit window =
    read_result (run (redis_key route_id client_id) limit (milliseconds window))

-- The answer of Redis, if there is a client and it gives one.
unfoldable pub redis_answer :
    Option (Text → ℤ → ℤ → RunResult) → Text → Text → ℤ → Duration → Option Verdict
redis_answer none route_id client_id limit window = none
redis_answer (some run) route_id client_id limit window =
    check_rate_limit run route_id client_id limit window

abbrev pub unlimited : Verdict
unlimited = record { allowed = true; remaining = pos 0; reset = pos 0 }

-- `RateLimiter.Allow`. Without a Redis client `redis` is `none`.
unfoldable pub limiter_allow :
    Option (Text → ℤ → ℤ → RunResult) → Route → Text → Time → Time → Entries → Entries × Verdict
limiter_allow redis route client_id now later m = elim route.rate_limit [
  | none ↦ (m, unlimited)
  | some lim ↦
      if lim.enabled
      then elim (redis_answer redis route.id client_id lim.requests lim.window) [
        | some v ↦ (m, v)
        | none ↦ memory_allow route.id client_id lim.requests lim.window now later m
      ]
      else (m, unlimited)
]
