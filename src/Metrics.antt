-- ===== src/Metrics.antt =====
-- The collectors of internal/metrics/prometheus.go and the events that feed them. Every method of
-- a collector holds its mutex throughout, so it is one function on the collector. Floating-point
-- numbers are a type `F` with the operations of Go that the code uses.
pub mod Render
pub mod Total
pub mod Scrape
pub mod Output
pub mod Labels
pub mod Counts
pub mod Histograms
pub mod Sorted
pub mod Printed
mod Tests
use gogateway.Base.{ℕ, ◌+◌, ◌%◌, Bool, Option, none, some, List, [], ◌∷◌, ◌++◌, if◌then◌else◌}
use gogateway.Base.Int.{ℤ, two64}
use gogateway.Base.Clock.{Duration}
use gogateway.Base.Text.{Text, text}
use gogateway.Base.Maps.{Map, lookup, insert}

-- `float64`: the literals by their text, `+`, `-`, `<=`, `==`, the conversion of an `int`, and the
-- seconds of a duration.
pub record Floats (F : Type 0) : Type 0 where
  pub zero : F
  pub one : F
  pub literal : Text → F
  pub plus : F → F → F
  pub minus : F → F → F
  pub at_most : F → F → Bool
  pub equals : F → F → Bool
  pub of_int : ℤ → F
  pub seconds : Duration → F

pub record CounterVec (F : Type 0) : Type 0 where
  pub values : Map F
  pub names : List Text

pub record Gauge (F : Type 0) : Type 0 where
  pub value : F

pub record GaugeVec (F : Type 0) : Type 0 where
  pub values : Map F
  pub names : List Text

-- A bucket that was never counted reads as 0.
pub record Histogram (F : Type 0) : Type 0 where
  -- uint64
  pub count : ℕ
  pub sum : F
  pub buckets : F → ℕ

pub record HistogramVec (F : Type 0) : Type 0 where
  pub buckets : List F
  pub values : Map (Histogram F)
  pub names : List Text

pub record Metrics (F : Type 0) : Type 0 where
  pub requests_total : CounterVec F
  pub request_duration : HistogramVec F
  pub active_connections : Gauge F
  pub circuit_breaker_state : GaugeVec F
  pub rate_limit_rejections : CounterVec F

-- strings.Join(lvs, "\x00")
unfoldable pub join_labels : List Text → Text
join_labels [] = []
join_labels (l ∷ []) = l
join_labels (l ∷ m ∷ ls) = l ++ 0 ∷ join_labels (m ∷ ls)

module _ {F : Type 0} where
  unfoldable pub new_counter_vec : List Text → CounterVec F
  new_counter_vec names = record { values = []; names = names }

  unfoldable pub new_gauge_vec : List Text → GaugeVec F
  new_gauge_vec names = record { values = []; names = names }

  unfoldable pub gauge_vec_set : F → List Text → GaugeVec F → GaugeVec F
  gauge_vec_set val lvs v = record v { values = insert (join_labels lvs) val v.values }

  unfoldable pub gauge_vec_reset : GaugeVec F → GaugeVec F
  gauge_vec_reset v = record v { values = [] }

module _ {F : Type 0} (floats : Floats F) where
  -- What a map of floats gives for a key.
  abbrev pub or_zero : Option F → F
  or_zero none = floats.zero
  or_zero (some x) = x

  unfoldable pub counter_inc : List Text → CounterVec F → CounterVec F
  counter_inc lvs v =
      let key = join_labels lvs in
      record v {
        values = insert key (floats.plus (or_zero (lookup key v.values)) floats.one) v.values;
      }

  unfoldable pub gauge_inc : Gauge F → Gauge F
  gauge_inc g = record { value = floats.plus g.value floats.one }

  unfoldable pub gauge_dec : Gauge F → Gauge F
  gauge_dec g = record { value = floats.minus g.value floats.one }

  abbrev pub default_buckets : List F
  default_buckets =
      floats.literal (text ".005")
      ∷ floats.literal (text ".01")
      ∷ floats.literal (text ".025")
      ∷ floats.literal (text ".05")
      ∷ floats.literal (text ".1")
      ∷ floats.literal (text ".25")
      ∷ floats.literal (text ".5")
      ∷ floats.literal (text "1")
      ∷ floats.literal (text "2.5")
      ∷ floats.literal (text "5")
      ∷ floats.literal (text "10")
      ∷ []

  -- Without buckets of its own the vector has the default ones.
  unfoldable pub new_histogram_vec : Option (List F) → List Text → HistogramVec F
  new_histogram_vec none names = record { buckets = default_buckets; values = []; names = names }
  new_histogram_vec (some buckets) names = record { buckets = buckets; values = []; names = names }

  -- h.buckets[b]++
  abbrev pub bump_bucket : F → (F → ℕ) → F → ℕ
  bump_bucket b counts x = if floats.equals x b then (counts x + 1) % two64 else counts x

  -- The loop over the bounds of the buckets.
  unfoldable pub fill : F → List F → (F → ℕ) → F → ℕ
  fill val [] counts = counts
  fill val (b ∷ bs) counts =
      fill val bs (if floats.at_most val b then bump_bucket b counts else counts)

  abbrev pub or_new : Option (Histogram F) → Histogram F
  or_new none = record { count = 0; sum = floats.zero; buckets = λ x. 0 }
  or_new (some h) = h

  unfoldable pub observe : F → List Text → HistogramVec F → HistogramVec F
  observe val lvs v =
      let key = join_labels lvs in
      let h = or_new (lookup key v.values) in
      record v {
        values =
            insert key
              (record {
                count = (h.count + 1) % two64;
                sum = floats.plus h.sum val;
                buckets = fill val v.buckets h.buckets;
              })
              v.values;
      }

  unfoldable pub new_metrics : Metrics F
  new_metrics = record {
    requests_total = new_counter_vec (text "route" ∷ text "method" ∷ text "status_code" ∷ []);
    request_duration = new_histogram_vec none (text "route" ∷ text "method" ∷ []);
    active_connections = record { value = floats.zero };
    circuit_breaker_state = new_gauge_vec (text "route" ∷ text "upstream" ∷ []);
    rate_limit_rejections = new_counter_vec (text "route" ∷ []);
  }

  unfoldable pub record_request : Text → Text → Text → Duration → Metrics F → Metrics F
  record_request route method status_code duration m = record m {
    requests_total = counter_inc (route ∷ method ∷ status_code ∷ []) m.requests_total;
    request_duration = observe (floats.seconds duration) (route ∷ method ∷ []) m.request_duration;
  }

  unfoldable pub record_rate_limit_rejection : Text → Metrics F → Metrics F
  record_rate_limit_rejection route m = record m {
    rate_limit_rejections = counter_inc (route ∷ []) m.rate_limit_rejections;
  }

  -- The loop of `SetBreakerStates`.
  unfoldable pub set_states : Map ℤ → GaugeVec F → GaugeVec F
  set_states [] v = v
  set_states ((key, state) ∷ snapshot) v =
      set_states snapshot (gauge_vec_set (floats.of_int state) (key ∷ [] ∷ []) v)

  unfoldable pub set_breaker_states : Map ℤ → Metrics F → Metrics F
  set_breaker_states snapshot m = record m {
    circuit_breaker_state = set_states snapshot (gauge_vec_reset m.circuit_breaker_state);
  }
