-- ===== src/Server/Exported.antt =====
-- The gauges that `RunBreakerStateLoop` exports of the breakers of internal/server/server.go.
use gogateway.Base.{
  ◌≡◌, ◌⊎◌, refl, sym, ap, ◌∙◌, ◌++◌, Option, none, some, [], ◌∷◌, if◌then◌else◌, Bool-cases,
  Option-cases, inl, inr, arith,
}
use mathlib.Core.Option
use gogateway.Base.Int.{ℤ, pos}
use gogateway.Base.Text.{Text, text_eq, text_eq_iff}
use gogateway.Base.Maps.{Map, lookup, lookup-insert, map_values, lookup-map_values}
use gogateway.Breaker.{CircuitBreaker, CircuitState, state_closed, state_open, state_half_open}
use mathlib.Core.Path.{subst}
use gogateway.BreakerStore.{snapshot}
use gogateway.BreakerStore.Laws.{lookup-snapshot}
use gogateway.Metrics.{
  Floats, GaugeVec, join_labels, gauge_vec_set, gauge_vec_reset, set_states, set_breaker_states,
}
use gogateway.Server.{Outside, Server}
use gogateway.Server.Export.{state_number, breaker_states, export_states}

-- No key occurs twice, as in a Go map.
abbrev pub IsDistinct : {V : Type 0} → Map V → Type 0
IsDistinct [] = Unit
IsDistinct ((k, v) ∷ m) = (lookup k m ≡ none) × IsDistinct m

-- The labels of a pool's gauge: its key, and an empty upstream.
abbrev pub gauge_key : Text → Text
gauge_key key = join_labels (key ∷ [] ∷ [])

append_injective : (s t : Text) → s ++ 0 ∷ [] ≡ t ++ 0 ∷ [] → s ≡ t
append_injective [] [] e = refl
append_injective [] (y ∷ []) e = ground arith
append_injective [] (y ∷ z ∷ t) e = ground arith
append_injective (x ∷ []) [] e = ground arith
append_injective (x ∷ z ∷ s) [] e = ground arith
append_injective (x ∷ s) (y ∷ t) e = ground (arith, append_injective s t)

text_eq-gauge_key : (j k : Text) → text_eq (gauge_key j) (gauge_key k) ≡ text_eq j k
unfolding join_labels
text_eq-gauge_key j k = elim (Bool-cases (text_eq j k)) [
  | inl same ↦
      (text_eq_iff (gauge_key j) (gauge_key k)).1 (ap gauge_key ((text_eq_iff j k).0 same))
      ∙ sym same
  | inr other ↦ elim (Bool-cases (text_eq (gauge_key j) (gauge_key k))) [
    | inr differ ↦ differ ∙ sym other
    | inl equal ↦
        let joined = (text_eq_iff (gauge_key j) (gauge_key k)).0 equal in
        let same = (text_eq_iff j k).1 (append_injective j k joined) in ground arith
  ]
]

module _ {F : Type 0} (floats : Floats F) where
  -- The gauge for an entry of the snapshot; without one it stays as it was.
  abbrev shown : Option ℤ → Option F → Option F
  shown none old = old
  shown (some state) old = some (floats.of_int state)

  lookup-set_states :
      (snapshot : Map ℤ) (k : Text) (v : GaugeVec F)
      → IsDistinct snapshot
      → lookup (gauge_key k) (set_states floats snapshot v).values
        ≡ shown (lookup k snapshot) (lookup (gauge_key k) v.values)
  unfolding set_states gauge_vec_set lookup
  lookup-set_states [] k v distinct = refl
  lookup-set_states ((j, state) ∷ snapshot) k v (fresh, distinct) =
      let v' = gauge_vec_set (floats.of_int state) (j ∷ [] ∷ []) v in
      let rest = lookup-set_states snapshot k v' distinct in
      let here : lookup (gauge_key k) v'.values
          ≡ (if text_eq j k then some (floats.of_int state) else lookup (gauge_key k) v.values) =
        lookup-insert (gauge_key j) (gauge_key k) (floats.of_int state) v.values
        ∙ rw (text_eq-gauge_key j k) refl in
      elim (Bool-cases (text_eq j k)) [
        | inl same ↦
            let absent : lookup k snapshot ≡ none =
              ap (λ (i : Text). lookup i snapshot) (sym ((text_eq_iff j k).0 same)) ∙ fresh in
            rw same (rest ∙ rw absent (here ∙ rw same refl))
        | inr other ↦ rw other (rest ∙ ap (shown (lookup k snapshot)) (here ∙ rw other refl))
      ]

IsDistinct-map_values :
    {V W : Type 0} (f : V → W) (m : Map V) → IsDistinct m → IsDistinct (map_values f m)
unfolding map_values
IsDistinct-map_values f [] distinct = tt
IsDistinct-map_values f ((k, v) ∷ m) (fresh, distinct) =
    (lookup-map_values f k m ∙ rw fresh refl, IsDistinct-map_values f m distinct)

-- The numbers of the help text of gogateway_circuit_breaker_state.
abbrev Numbered : CircuitState → ℤ → Type 0
Numbered state n =
    ((state ≡ state_closed) × (n ≡ pos 0))
    ⊎ ((state ≡ state_open) × (n ≡ pos 1))
    ⊎ ((state ≡ state_half_open) × (n ≡ pos 2))

state_number-Numbered : (state : CircuitState) → Numbered state (state_number state)
unfolding state_number
state_number-Numbered state_closed = inl (refl, refl)
state_number-Numbered state_open = inr (inl (refl, refl))
state_number-Numbered state_half_open = inr (inr (refl, refl))

-- The gauge shows the number of the breaker's state; without a breaker there is none.
abbrev pub Exports : {F : Type 0} → Floats F → Option CircuitBreaker → Option F → Type 0
Exports floats none gauge = gauge ≡ none
Exports floats (some cb) gauge = (n : ℤ) × Numbered cb.state n × (gauge ≡ some (floats.of_int n))

Exports-number :
    {F : Type 0} (floats : Floats F) (o : Option CircuitBreaker)
    → Exports floats o
        (Option.map (λ (cb : CircuitBreaker). floats.of_int (state_number cb.state)) o)
Exports-number floats none = refl
Exports-number floats (some cb) = (state_number cb.state, state_number-Numbered cb.state, refl)

lookup-export_states_number :
    {F : Type 0} (out : Outside F) (key : Text) (s : Server F)
    → IsDistinct s.breaker_store.breakers
    → lookup (gauge_key key) (export_states out s).metrics.circuit_breaker_state.values
      ≡ Option.map
          (λ (cb : CircuitBreaker). out.floats.of_int (state_number cb.state))
          (lookup key s.breaker_store.breakers)
unfolding export_states set_breaker_states gauge_vec_reset breaker_states lookup snapshot
lookup-export_states_number out key s distinct =
    let states = breaker_states s.breaker_store in
    let distinct_states = IsDistinct-map_values state_number (snapshot s.breaker_store) (
      IsDistinct-map_values (λ (cb : CircuitBreaker). cb.state) s.breaker_store.breakers
        distinct) in
    let number =
      lookup-map_values state_number key (snapshot s.breaker_store)
      ∙ ap (Option.map state_number) (lookup-snapshot key s.breaker_store) in
    lookup-set_states out.floats states key (gauge_vec_reset s.metrics.circuit_breaker_state)
      distinct_states
    ∙ (elim (Option-cases (lookup key s.breaker_store.breakers)) [
      | inl absent ↦ rw (number, absent) refl
      | inr (cb, there) ↦ rw (number, there) refl
    ])

-- After an export, whatever was exported before, the gauge with the key of a pool, route and upstream
-- joined, as its label `route` and with an empty label `upstream` shows 0 if the breaker of the pool
-- is closed, 1 if it is open and 2 if it is half-open, and there is no such gauge for a pool without
-- a breaker. The store has each key once, as a Go map does.
pub lookup-export_states :
    {F : Type 0} (out : Outside F) (key : Text) (s : Server F)
    → IsDistinct s.breaker_store.breakers
    → Exports out.floats
        (lookup key s.breaker_store.breakers)
        (lookup (gauge_key key) (export_states out s).metrics.circuit_breaker_state.values)
lookup-export_states out key s distinct =
    subst (Exports out.floats (lookup key s.breaker_store.breakers))
      (sym (lookup-export_states_number out key s distinct))
      (Exports-number out.floats (lookup key s.breaker_store.breakers))
