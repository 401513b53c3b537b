-- ===== src/Metrics/Output.antt =====
-- The output of internal/metrics/prometheus.go for well-labelled vectors.
use gogateway.Base.{
  ℕ, ◌≤◌, ◌≡◌, refl, Option, none, some, List, [], ◌∷◌, ◌++◌, All, length, Bool-cases, inl, inr,
  arith,
}
use gogateway.Base.Text.{Text, text, text_eq, text_eq_refl}
use gogateway.Base.Int.{pos}
use gogateway.Base.Decimal.{itoa}
use gogateway.Base.Maps.{Map, lookup}
use gogateway.Metrics.{Floats, Metrics, new_metrics, Histogram}
use gogateway.Metrics.Render.{
  split, sorted_keys, labelled, heading, render_map, base, render_buckets, render_counters,
  render_gauges, render_histogram, of_key, render_histograms, render,
}
use gogateway.Metrics.Total.{
  Produces, Produces-then, each-Produces, format_labels-Produces, merge_labels-Produces, AllKeys,
  All-sorted_keys,
}
use gogateway.Metrics.Scrape.{
  Event, Parts, IsLabelled, apply_all, apply_all-IsLabelled, new_metrics-IsLabelled,
}

All-map : {P Q : Text → Type 0} (ks : List Text) → ((k : Text) → P k → Q k) → All P ks → All Q ks
All-map [] h all = tt
All-map (k ∷ ks) h (here, all) = (h k here, All-map ks h all)

All-always : {A : Type 0} {P : A → Type 0} → ((x : A) → P x) → (xs : List A) → All P xs
All-always h [] = tt
All-always h (x ∷ xs) = (h x, All-always h xs)

labelled-Produces :
    (name : Text) (o : Option Text) (value : Text) → Produces o → Produces (labelled name o value)
labelled-Produces name none value (out, e) = ground arith
labelled-Produces name (some labels) value p = (_, refl)

heading-Produces : (h : Text) (o : Option Text) → Produces o → Produces (heading h o)
unfolding heading
heading-Produces h none (out, e) = ground arith
heading-Produces h (some rest) p = (_, refl)

-- Every key of a map has its value.
module _ {V : Type 0} where
  abbrev Present : Map V → Text → Type 0
  Present m k = (v : V) × (lookup k m ≡ some v)

  Present-cons : (j : Text) (w : V) (m : Map V) (k : Text) → Present m k → Present ((j, w) ∷ m) k
  unfolding lookup
  Present-cons j w m k (v, found) = elim (Bool-cases (text_eq j k)) [
    | inl same ↦ (w, rw same)
    | inr other ↦ (v, rw other found)
  ]

  AllKeys-map :
      {P Q : Text → Type 0} (m : Map V) → ((k : Text) → P k → Q k) → AllKeys P m → AllKeys Q m
  AllKeys-map [] h all = tt
  AllKeys-map ((k, v) ∷ m) h (here, all) = (h k here, AllKeys-map m h all)

  AllKeys-both : (P : Text → Type 0) (m : Map V) → AllKeys P m → AllKeys (λ k. P k × Present m k) m
  unfolding lookup
  AllKeys-both P [] all = tt
  AllKeys-both P ((k, v) ∷ m) (here, all) = (
    (here, (v, rw text_eq_refl)),
    AllKeys-map m (λ j (part, present). (part, Present-cons k v m j present))
        (AllKeys-both P m all),
  )

module _ {F : Type 0} (floats : Floats F) (print : F → Text) where
  render_map-Produces :
      (n : ℕ) (name : Text) (names : List Text) (values : Map F)
      → length names ≤ n
      → AllKeys (Parts n) values
      → Produces (render_map floats print name names values)
  unfolding render_map
  render_map-Produces n name names values le all = each-Produces _ (sorted_keys values) (
      All-map (sorted_keys values)
        (λ key parts.
          labelled-Produces name _ _ (format_labels-Produces names (split key) (omega arith)))
        (All-sorted_keys (Parts n) values all))

  render_buckets-Produces :
      (buckets : List F) (names vals : List Text) (h : Histogram F)
      → length names ≤ length vals
      → Produces (render_buckets floats print buckets names vals h)
  unfolding render_buckets
  render_buckets-Produces buckets names vals h le = each-Produces _ buckets (
      All-always
        (λ b.
          labelled-Produces (base floats print ++ text "_bucket") _ (itoa (pos (h.buckets b)))
            (merge_labels-Produces names vals (text "le") (print b) le))
        buckets)

  render_histogram-Produces :
      (buckets : List F) (names vals : List Text) (h : Histogram F)
      → length names ≤ length vals
      → Produces (render_histogram floats print buckets names vals h)
  unfolding render_histogram
  render_histogram-Produces buckets names vals h le =
      Produces-then _ _ (render_buckets-Produces buckets names vals h le) (λ finite.
        Produces-then _ _ (merge_labels-Produces names vals (text "le") (text "+Inf") le)
          (λ inf. Produces-then _ _ (format_labels-Produces names vals le) (λ ls. (_, refl))))

  of_key-Produces :
      (f : Histogram F → Option Text) (o : Option (Histogram F)) (h : Histogram F)
      → o ≡ some h
      → ((h : Histogram F) → Produces (f h))
      → Produces (of_key floats print f o)
  of_key-Produces f none h found make = ground arith
  of_key-Produces f (some h') h found make = make h'

  render_histograms-Produces :
      (m : Metrics F) → IsLabelled m → Produces (render_histograms floats print m)
  unfolding render_histograms
  render_histograms-Produces m labels =
      let v = m.request_duration in
      heading-Produces _ _ (
        each-Produces _ (sorted_keys v.values) (
          All-map (sorted_keys v.values)
            (λ key (parts, (h, found)). of_key-Produces _ _ h found (λ h'.
              render_histogram-Produces v.buckets v.names (split key) h'
                (omega (arith, labels.durations.0))))
            (All-sorted_keys (λ k. Parts 2 k × Present v.values k) v.values
              (AllKeys-both (Parts 2) v.values labels.durations.1))))

  render_counters-Produces :
      (m : Metrics F) → IsLabelled m → Produces (render_counters floats print m)
  unfolding render_counters
  render_counters-Produces m labels = heading-Produces _ _ (
      Produces-then _ _
        (render_map-Produces 3 (text "gogateway_requests_total") m.requests_total.names
          m.requests_total.values labels.requests.0 labels.requests.1)
        (λ requests. heading-Produces _ _ (
          render_map-Produces 1 (text "gogateway_rate_limit_rejections_total")
            m.rate_limit_rejections.names m.rate_limit_rejections.values labels.rejections.0
            labels.rejections.1)))

  render_gauges-Produces : (m : Metrics F) → IsLabelled m → Produces (render_gauges floats print m)
  unfolding render_gauges
  render_gauges-Produces m labels = heading-Produces _ _ (
      render_map-Produces 2 (text "gogateway_circuit_breaker_state") m.circuit_breaker_state.names
        m.circuit_breaker_state.values labels.states.0 labels.states.1)

  render-Produces : (m : Metrics F) → IsLabelled m → Produces (render floats print m)
  unfolding render
  render-Produces m labels = Produces-then _ _ (render_counters-Produces m labels) (λ counters.
      Produces-then _ _ (render_gauges-Produces m labels) (λ gauges.
        Produces-then _ _ (render_histograms-Produces m labels) (λ histograms. (_, refl))))

-- A scrape never panics: whatever events the metrics were told, with whatever texts as labels, the
-- output is produced.
pub render-apply_all :
    {F : Type 0} (floats : Floats F) (print : F → Text) (events : List Event)
    → (out : Text) × (render floats print (apply_all floats events (new_metrics floats)) ≡ some out)
render-apply_all floats print events =
    render-Produces floats print (apply_all floats events (new_metrics floats))
      (apply_all-IsLabelled floats events (new_metrics floats) (new_metrics-IsLabelled floats))
