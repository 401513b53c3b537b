-- ===== src/Metrics/Render.antt =====
-- The Prometheus text format of internal/metrics/prometheus.go. A slice that is indexed out of its
-- range is a panic, `none`. `print` is the verb `%g` of fmt.
use gogateway.Base.{
  ℕ, ◌==◌, ltb, Bool, true, false, Option, none, some, List, [], ◌∷◌, ◌++◌, is_nil, if◌then◌else◌,
}
use gogateway.Base.Int.{pos}
use gogateway.Base.Text.{Text, text}
use gogateway.Base.Decimal.{itoa}
use gogateway.Base.Maps.{Map, lookup}
use gogateway.Metrics.{Floats, Histogram, Metrics, or_zero}

-- The byte stands before the first part.
abbrev pub extend : ℕ → List Text → List Text
extend c [] = (c ∷ []) ∷ []
extend c (part ∷ parts) = (c ∷ part) ∷ parts

-- strings.Split(key, "\x00")
unfoldable pub split : Text → List Text
split [] = [] ∷ []
split (c ∷ s) = let rest = split s in if c == 0 then [] ∷ rest else extend c rest

-- The order of Go strings.
unfoldable pub text_leb : Text → Text → Bool
text_leb [] t = true
text_leb (x ∷ s) [] = false
text_leb (x ∷ s) (y ∷ t) =
    let rest = text_leb s t in if ltb x y then true else if x == y then rest else false

-- sort.Strings sorts; of the results for an order that is total there is only one, so that an
-- insertion sort stands for it.
unfoldable pub insert_sorted : Text → List Text → List Text
insert_sorted k [] = k ∷ []
insert_sorted k (j ∷ ks) =
    let rest = insert_sorted k ks in if text_leb k j then k ∷ j ∷ ks else j ∷ rest

-- sortedKeys and sortedKeysString: the keys of a map, sorted.
unfoldable pub sorted_keys {ℓ} : {V : Type ℓ} → Map V → List Text
sorted_keys [] = []
sorted_keys ((k, v) ∷ m) = insert_sorted k (sorted_keys m)

abbrev pub pair : Text → Text → Text
pair name value = name ++ b'=' ∷ b'"' ∷ value ++ b'"' ∷ []

-- The loop over the names; every pair but the first follows a comma.
unfoldable pub pairs : Bool → List Text → List Text → Option Text
pairs comma [] vals = some []
pairs comma (n ∷ names) [] = none
pairs comma (n ∷ names) (v ∷ vals) = elim (pairs true names vals) [
  | none ↦ none
  | some rest ↦ some ((if comma then b',' ∷ [] else []) ++ pair n v ++ rest)
]

unfoldable pub format_labels : List Text → List Text → Option Text
format_labels [] vals = some []
format_labels (n ∷ names) vals = elim (pairs false (n ∷ names) vals) [
  | none ↦ none
  | some inner ↦ some (b'{' ∷ inner ++ b'}' ∷ [])
]

unfoldable pub merge_labels : List Text → List Text → Text → Text → Option Text
merge_labels names vals extra_key extra_val = elim (pairs false names vals) [
  | none ↦ none
  | some inner ↦ some (
      b'{' ∷ inner
      ++ (if is_nil names then [] else b',' ∷ [])
      ++ pair extra_key extra_val
      ++ b'}' ∷ [])
]

-- One piece of output for each item; a panic at one ends the whole.
unfoldable pub each {ℓ} : {A : Type ℓ} → (A → Option Text) → List A → Option Text
each f [] = some []
each f (x ∷ xs) = elim (f x) [
  | none ↦ none
  | some piece ↦ elim (each f xs) [ none ↦ none | some rest ↦ some (piece ++ rest) ]
]

abbrev pub line : Text → Text → Text → Text
line name labels value = name ++ labels ++ b' ' ∷ value ++ 10 ∷ []

abbrev pub labelled : Text → Option Text → Text → Option Text
labelled name none value = none
labelled name (some labels) value = some (line name labels value)

unfoldable pub heading : Text → Option Text → Option Text
heading h none = none
heading h (some rest) = some (h ++ rest)

module _ {F : Type 0} (floats : Floats F) (print : F → Text) where
  unfoldable pub render_map : Text → List Text → Map F → Option Text
  render_map name names values =
      each
        (λ key.
          labelled name (format_labels names (split key))
            (print (or_zero floats (lookup key values))))
        (sorted_keys values)

  unfoldable pub render_counters : Metrics F → Option Text
  render_counters m =
      heading
        (text "# HELP gogateway_requests_total Total requests processed"
          ++ 10 ∷ text "# TYPE gogateway_requests_total counter"
          ++ 10 ∷ [])
        (elim (render_map (text "gogateway_requests_total") m.requests_total.names
          m.requests_total.values) [
            | none ↦ none
            | some requests ↦
                heading
                  (requests
                    ++ text
                        "# HELP gogateway_rate_limit_rejections_total Total rate-limited requests"
                    ++ 10 ∷ text "# TYPE gogateway_rate_limit_rejections_total counter"
                    ++ 10 ∷ [])
                  (render_map (text "gogateway_rate_limit_rejections_total")
                    m.rate_limit_rejections.names m.rate_limit_rejections.values)
          ])

  unfoldable pub render_gauges : Metrics F → Option Text
  render_gauges m =
      heading
        (text "# HELP gogateway_active_connections Number of currently active connections"
          ++ 10 ∷ text "# TYPE gogateway_active_connections gauge"
          ++ 10 ∷ line (text "gogateway_active_connections") [] (print m.active_connections.value)
          ++ text
              "# HELP gogateway_circuit_breaker_state Circuit breaker state per upstream (0=closed, 1=open, 2=half-open)"
          ++ 10 ∷ text "# TYPE gogateway_circuit_breaker_state gauge"
          ++ 10 ∷ [])
        (render_map (text "gogateway_circuit_breaker_state") m.circuit_breaker_state.names
          m.circuit_breaker_state.values)

  abbrev pub base : Text
  base = text "gogateway_request_duration_seconds"

  -- The lines of the finite buckets.
  unfoldable pub render_buckets : List F → List Text → List Text → Histogram F → Option Text
  render_buckets buckets names vals h =
      each
        (λ b.
          labelled (base ++ text "_bucket") (merge_labels names vals (text "le") (print b))
            (itoa (pos (h.buckets b))))
        buckets

  -- The lines after them.
  unfoldable pub totals : Text → Text → Histogram F → Text
  totals inf ls h =
      line (base ++ text "_bucket") inf (itoa (pos h.count))
      ++ line (base ++ text "_sum") ls (print h.sum)
      ++ line (base ++ text "_count") ls (itoa (pos h.count))

  -- The lines of one histogram.
  unfoldable pub render_histogram : List F → List Text → List Text → Histogram F → Option Text
  render_histogram buckets names vals h = elim (render_buckets buckets names vals h) [
    | none ↦ none
    | some finite ↦ elim (merge_labels names vals (text "le") (text "+Inf")) [
      | none ↦ none
      | some inf ↦ elim (format_labels names vals) [
        | none ↦ none
        | some ls ↦ some (finite ++ totals inf ls h)
      ]
    ]
  ]

  -- A key of the map has a histogram.
  abbrev pub of_key : (Histogram F → Option Text) → Option (Histogram F) → Option Text
  of_key f none = none
  of_key f (some h) = f h

  unfoldable pub render_histograms : Metrics F → Option Text
  render_histograms m =
      let v = m.request_duration in
      heading
        (text "# HELP gogateway_request_duration_seconds Request latency in seconds"
          ++ 10 ∷ text "# TYPE gogateway_request_duration_seconds histogram"
          ++ 10 ∷ [])
        (each (λ key. of_key (render_histogram v.buckets v.names (split key)) (lookup key v.values))
          (sorted_keys v.values))

  -- The body that `ServeHTTP` writes.
  unfoldable pub render : Metrics F → Option Text
  render m = elim (render_counters m) [
    | none ↦ none
    | some counters ↦ elim (render_gauges m) [
      | none ↦ none
      | some gauges ↦ elim (render_histograms m) [
        | none ↦ none
        | some histograms ↦ some (counters ++ gauges ++ histograms)
      ]
    ]
  ]
