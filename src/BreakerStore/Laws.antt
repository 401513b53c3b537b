-- ===== src/BreakerStore/Laws.antt =====
-- The store of internal/middleware/circuitbreaker.go as one breaker for each pool.
use mathlib.Core.Option
use mathlib.Core.List.{append_assoc}
use gogateway.Base.{
  ◌≡◌, ◌↔◌, refl, false, Option, none, some, List, [], ◌∷◌, ◌++◌, if◌then◌else◌, Bool-cases, inl,
  inr, Option-cases, arith,
}
use gogateway.Base.Text.{Text, text_eq, text_eq_iff, has, colon, join_injective}
use gogateway.Base.Maps.{lookup, lookup-insert, lookup-map_values}
use gogateway.Config.{CircuitBrkCfg}
use gogateway.Breaker.{CircuitBreaker, new_circuit_breaker}
use gogateway.Breaker.History.{Call, step, run}
use gogateway.BreakerStore.{BreakerStore, breaker_key, get_or_create, call_at, snapshot}

-- Every breaker that `seen` knows is still there: breakers are never removed.
abbrev pub KnownIn : BreakerStore → BreakerStore → Type 0
KnownIn seen bs =
    (key : Text) (cb : CircuitBreaker)
    → lookup key seen.breakers ≡ some cb
    → (cb' : CircuitBreaker) × (lookup key bs.breakers ≡ some cb')

-- Whatever other requests did between the two locks, the breaker returned is the one that the
-- store has for the pool, or a new one if it has none, and every other pool keeps its breaker. The
-- breakers seen under the read lock are still in the store.
pub lookup-get_or_create :
    (route_id upstream_url : Text) (cfg : CircuitBrkCfg) (seen bs : BreakerStore)
    → KnownIn seen bs
    → (j : Text)
    → let key = breaker_key route_id upstream_url in
      let (after, pointer) = get_or_create route_id upstream_url cfg seen bs in
      (pointer ≡ key)
      × (lookup j after.breakers ≡ (
          if text_eq key j
          then some (Option.get_or (lookup key bs.breakers) (new_circuit_breaker cfg))
          else lookup j bs.breakers))
unfolding get_or_create
lookup-get_or_create route_id upstream_url cfg seen bs known j =
    let key = breaker_key route_id upstream_url in
    elim (Option-cases (lookup key seen.breakers)) [
      | inl unseen ↦
          ground
            (arith, text_eq_iff key j, lookup-insert key j (new_circuit_breaker cfg) bs.breakers)
      | inr (cb, seen_there) ↦
          let (cb', present) = known key cb seen_there in ground (arith, text_eq_iff key j)
    ]

-- The calls made through one pointer, in order.
unfoldable calls_of : Text → List (Text × Call) → List Call
calls_of k [] = []
calls_of k ((j, c) ∷ ops) = let rest = calls_of k ops in if text_eq j k then c ∷ rest else rest

unfoldable run_all : List (Text × Call) → BreakerStore → BreakerStore
run_all [] bs = bs
run_all ((j, c) ∷ ops) bs = run_all ops (call_at j c bs)

pub lookup-call_at :
    (j k : Text) (c : Call) (bs : BreakerStore)
    → lookup k (call_at j c bs).breakers
      ≡ (if text_eq j k then Option.map (step c) (lookup k bs.breakers) else lookup k bs.breakers)
unfolding call_at
lookup-call_at j k c bs = elim (Option-cases (lookup j bs.breakers)) [
  | inl absent ↦ ground (arith, text_eq_iff j k)
  | inr (cb, present) ↦ ground (arith, text_eq_iff j k, lookup-insert j k (step c cb) bs.breakers)
]

map-run_nil : (o : Option CircuitBreaker) → o ≡ Option.map (run []) o
unfolding run
map-run_nil none = refl
map-run_nil (some cb) = refl

-- However the calls to the breakers of different pools interleave, the breaker of a pool is where
-- its own calls alone would have led it.
lookup-run_all :
    (k : Text) (ops : List (Text × Call)) (bs : BreakerStore)
    → lookup k (run_all ops bs).breakers ≡ Option.map (run (calls_of k ops)) (lookup k bs.breakers)
unfolding run_all calls_of run
lookup-run_all k [] bs = map-run_nil (lookup k bs.breakers)
lookup-run_all k ((j, c) ∷ ops) bs =
    rw (lookup-run_all k ops (call_at j c bs), lookup-call_at j k c bs)
      (elim (Bool-cases (text_eq j k)) [
        | inl e ↦ rw e (Option.map-map (run (calls_of k ops)) (step c) (lookup k bs.breakers))
        | inr e ↦ rw e
      ])

-- Two pools share a breaker exactly when they are one pool, if no route ID holds a colon.
breaker_key-eq_iff :
    (r s u v : Text)
    → has colon r ≡ false
    → has colon s ≡ false
    → (breaker_key r u ≡ breaker_key s v) ↔ ((r ≡ s) × (u ≡ v))
unfolding breaker_key
breaker_key-eq_iff r s u v hr hs = (join_injective colon r s u v hr hs, λ e. cc)

-- With a colon in the route ID, two different pools have one key.
breaker_key_collides :
    (r s u : Text) → breaker_key (r ++ colon ∷ s) u ≡ breaker_key r (s ++ colon ∷ u)
unfolding breaker_key
breaker_key_collides r s u = append_assoc r (colon ∷ s) (colon ∷ u)

-- The exported snapshot has, for each pool, the state of its breaker, and no other entry.
pub lookup-snapshot :
    (key : Text) (bs : BreakerStore)
    → lookup key (snapshot bs)
      ≡ Option.map (λ (cb : CircuitBreaker). cb.state) (lookup key bs.breakers)
unfolding snapshot
lookup-snapshot key bs = lookup-map_values (λ (cb : CircuitBreaker). cb.state) key bs.breakers
