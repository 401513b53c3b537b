-- ===== src/Limiter/Redis/Window.antt =====
-- The window that the Lua script of internal/store/redis.go keeps, with Redis as documented: `INCR`
-- adds one to a counter that starts at zero, and `PEXPIRE` with a positive time leaves it as it is.
use gogateway.Base.{
  ℕ, ◌+◌, ◌-◌, min, ◌≡◌, ◌↔◌, refl, Bool, true, some, List, [], ◌∷◌, if◌then◌else◌, leb, Bool-cases,
  inl, inr, arith,
}
use gogateway.Base.Int.{ℤ, pos, ◌-ℤ◌, ◌≤ℤ◌, ◌<ℤ◌, leb_ℤ, -ℤ_parts}
use gogateway.Base.Text.{Text, text_eq, text_eq_iff}
use gogateway.Limiter.{Verdict}
use gogateway.Limiter.Quota.{one_if}
use gogateway.Limiter.Redis.{
  Commands, ScriptReply, RunResult, slice, int64, eqb_ℤ, rate_script, to_int, read_result,
}

-- What the script relies on. `value` is the counter that a client would read at a key.
pub record Documented {Db : Type 0} (redis : Commands Db) (value : Text → Db → ℕ) : Type 0 where
  pub incr_reply : (key : Text) (db : Db) → (redis.incr key db).0 ≡ pos (value key db + 1)
  pub incr_value :
      (key j : Text) (db : Db)
      → value j (redis.incr key db).1 ≡ (if text_eq key j then value key db + 1 else value j db)
  pub pexpire_value :
      (key j : Text) (window : ℤ) (db : Db)
      → pos 0 <ℤ window
      → value j (redis.pexpire key window db) ≡ value j db

-- The client library gives a Lua table of integers back as a slice of `int64`.
abbrev pub encode : ScriptReply → RunResult
encode r = slice (int64 r.flag ∷ int64 r.remaining ∷ int64 r.ttl ∷ [])

-- The gateway's reading of the script's reply: the request is allowed exactly when the counter,
-- with the request counted, is within the limit; what remains is the rest of the limit, and is
-- zero beyond it.
read_result-rate_script :
    {Db : Type 0} (redis : Commands Db) (key : Text) (limit window : ℤ) (db : Db)
    → (v : Verdict) × (read_result (encode (rate_script redis key limit window db).0) ≡ some v)
      × ((v.allowed ≡ true) ↔ ((redis.incr key db).0 ≤ℤ limit))
      × ((redis.incr key db).0 ≤ℤ limit → v.remaining ≡ limit -ℤ (redis.incr key db).0)
      × (limit <ℤ (redis.incr key db).0 → v.remaining ≡ pos 0)
unfolding read_result rate_script to_int
read_result-rate_script redis key limit window db =
    let parts = -ℤ_parts limit (redis.incr key db).0 in
    elim (Bool-cases (leb_ℤ (redis.incr key db).0 limit)) [
      | inl e ↦ (_, refl, ground arith, ground arith, ground arith)
      | inr e ↦ (_, refl, ground arith, ground arith, ground arith)
    ]

abbrev allows : ScriptReply → Bool
allows r = eqb_ℤ r.flag (pos 1)

module _ {Db : Type 0} (redis : Commands Db) (limit : ℕ) (window : ℤ) where
  -- How many of the calls for `key` are allowed, of calls for many keys in their order.
  unfoldable pub admitted : Text → List Text → Db → ℕ
  admitted key [] db = 0
  admitted key (k ∷ ks) db =
      let (r, db') = rate_script redis k (pos limit) window db in
      (if text_eq k key then one_if (allows r) else 0) + admitted key ks db'

abbrev pub calls_for : Text → List Text → ℕ
calls_for key [] = 0
calls_for key (k ∷ ks) = one_if (text_eq k key) + calls_for key ks

module _ {Db : Type 0} (redis : Commands Db) (value : Text → Db → ℕ) (law : Documented redis value)
    (limit : ℕ) (window : ℤ) (positive : pos 0 <ℤ window) where
  script_step :
      (k j : Text) (db : Db)
      → (allows (rate_script redis k (pos limit) window db).0 ≡ leb (value k db + 1) limit)
        × (value j (rate_script redis k (pos limit) window db).1
            ≡ (if text_eq k j then value k db + 1 else value j db))
  unfolding rate_script
  script_step k j db = ground (
    arith,
    law.incr_reply k db,
    law.incr_value k j db,
    law.pexpire_value k j window (redis.incr k db).1,
  )

  -- While no counter expires: of the calls for a key, the first ones up to the limit are allowed
  -- and no other, whatever calls for other keys come in between. `value key db` of them are used
  -- up already. This is the quota of the in-memory limiter.
  pub redis_quota :
      (key : Text) (ks : List Text) (db : Db)
      → admitted redis limit window key ks db ≡ min (calls_for key ks) (limit - value key db)
  unfolding admitted
  redis_quota key [] db = omega arith
  redis_quota key (k ∷ ks) db =
      let rest = redis_quota key ks (rate_script redis k (pos limit) window db).1 in
      let (allows_k, left) = script_step k key db in
      elim (Bool-cases (text_eq k key)) [
        | inl e ↦ ground (arith, text_eq_iff k key)
        | inr e ↦ ground arith
      ]
