-- ===== src/Limiter/Tests.antt =====
-- Runs of internal/middleware/ratelimit.go and internal/store/redis.go.
use gogateway.Base.{ℕ, ◌+◌, ◌≡◌, refl, min, true, none, some, List, [], ◌∷◌, arith}
use gogateway.Base.Int.{pos, ◌+ℤ◌, ◌-ℤ◌, incr, wrap64}
use gogateway.Base.Clock.{sub, saturate}
use gogateway.Base.Text.{Text, text, text_eq}
use gogateway.Base.Maps.{Map, lookup, insert, lookup-insert}
use gogateway.Config.{Route}
use gogateway.Limiter.{
  MemoryEntry, Entries, client_key, counted, verdict, at_least_zero, allow_key, clean_expired,
  memory_allow,
}
use gogateway.Limiter.Sweep.{Op, request, tick, answers, without_ticks, answers-without_ticks}
use gogateway.Limiter.Quota.{admitted_of, requests_of, window_quota}
use gogateway.Limiter.Bounds.{Reports, Before, live, memory_allow-Reports}
use gogateway.Limiter.Redis.{Commands}
use gogateway.Limiter.Redis.Window.{Documented, admitted, calls_for, redis_quota}

abbrev later_ops : List Op
later_ops =
    request (text "r:a") (pos 2) (pos 10) (pos 101) (pos 101)
    ∷ tick (pos 105)
    ∷ request (text "r:b") (pos 1) (pos 3) (pos 106) (pos 106)
    ∷ request (text "r:a") (pos 2) (pos 10) (pos 110) (pos 110)
    ∷ []

abbrev window_ops : List Op
window_ops = request (text "r:a") (pos 2) (pos 10) (pos 100) (pos 100) ∷ later_ops

two_of_three : admitted_of (text "r:a") window_ops [] ≡ 2
unfolding admitted_of allow_key lookup insert counted verdict at_least_zero text_eq incr wrap64 ◌+ℤ◌
    ◌-ℤ◌ sub saturate clean_expired
two_of_three = refl

window_quota_example :
    admitted_of (text "r:a") window_ops [] ≡ min (1 + requests_of (text "r:a") later_ops) 2
unfolding text_eq lookup ◌+ℤ◌
window_quota_example =
    window_quota (text "r:a") 2 (pos 10) (pos 100) (pos 100) later_ops [] refl
      ((λ e. (refl, omega arith)), (omega arith, ((λ e. cc), ((λ e. (refl, omega arith)), tt))))
      (omega arith)

answers-without_ticks_example : answers window_ops [] ≡ answers (without_ticks window_ops) []
answers-without_ticks_example = answers-without_ticks (pos 100) window_ops [] (omega arith)

abbrev used_once : Entries
used_once = (text "r:a", record { count = pos 1; reset_at = pos 105 }) ∷ []

used_once-Before : Before (pos 100) (lookup (client_key (text "r") (text "a")) used_once) 1
unfolding lookup client_key text_eq
used_once-Before = live (record { count = pos 1; reset_at = pos 105 }) 1 refl refl

memory_allow-Reports_example :
    let (m', v) =
      memory_allow (text "r") (text "a") (pos 2) (pos 10) (pos 100) (pos 100) used_once in
    (e : MemoryEntry) × (lookup (client_key (text "r") (text "a")) m' ≡ some e)
    × (e.count ≡ pos 2)
    × Reports (pos 2) (pos 2) v
memory_allow-Reports_example =
    memory_allow-Reports (text "r") (text "a") (pos 2) (pos 10) (pos 100) (pos 100) used_once 1
      used_once-Before (omega arith) (omega arith)

-- A Redis server of counters only.
abbrev counter_value : Text → Map ℕ → ℕ
counter_value key db = elim (lookup key db) [ none ↦ 0 | some n ↦ n ]

abbrev counters : Commands (Map ℕ)
counters = record {
  incr = λ key db. (pos (counter_value key db + 1), insert key (counter_value key db + 1) db);
  pexpire = λ key window db. db;
  pttl = λ key db. pos 10;
}

counters-Documented : Documented counters counter_value
counters-Documented = record {
  incr_reply = λ key db. refl;
  incr_value = λ key j db. ground (arith, lookup-insert key j (counter_value key db + 1) db);
  pexpire_value = λ key j window db h. refl;
}

redis_quota_example :
    admitted counters 2 (pos 10000) (text "a") (text "a" ∷ text "b" ∷ text "a" ∷ text "a" ∷ []) []
    ≡ min (calls_for (text "a") (text "a" ∷ text "b" ∷ text "a" ∷ text "a" ∷ [])) 2
unfolding lookup
redis_quota_example =
    redis_quota counters counter_value counters-Documented 2 (pos 10000) (omega arith) (text "a")
      (text "a" ∷ text "b" ∷ text "a" ∷ text "a" ∷ []) []

abbrev limited : Route
limited = record {
  id = text "r";
  path = text "/*";
  methods = [];
  hosts = [];
  upstreams = [];
  auth = none;
  rate_limit =
      some (record { enabled = true; requests = pos 2; window = pos 10; per_client = true });
  circuit_breaker = none;
  timeout = pos 0;
  retry = pos 0;
}
