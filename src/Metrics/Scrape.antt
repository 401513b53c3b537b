-- ===== src/Metrics/Scrape.antt =====
-- A scrape of internal/metrics/prometheus.go after any events.
use gogateway.Base.{ℕ, ◌≤◌, ◌≡◌, refl, List, [], ◌∷◌, length, arith}
use gogateway.Base.Int.{ℤ}
use gogateway.Base.Clock.{Duration}
use gogateway.Base.Text.{Text}
use gogateway.Base.Maps.{Map}
use gogateway.Metrics.{
  Floats, Metrics, join_labels, counter_inc, gauge_inc, gauge_dec, observe, new_metrics,
  record_request, record_rate_limit_rejection, set_states, set_breaker_states, gauge_vec_set,
  gauge_vec_reset, new_counter_vec, new_gauge_vec, new_histogram_vec, GaugeVec,
}
use gogateway.Metrics.Render.{split}
use gogateway.Metrics.Total.{AllKeys, AllKeys-insert, length-split-join_labels}

-- What the gateway tells the metrics.
pub data Event : Type 0 where
  connected disconnected : Event
  requested : Text → Text → Text → Duration → Event
  rejected : Text → Event
  exported : Map ℤ → Event

-- The key has at least so many parts.
abbrev pub Parts : ℕ → Text → Type 0
Parts n key = n ≤ length (split key)

-- Every key of the four vectors has a part for each of their labels.
pub record IsLabelled {F : Type 0} (m : Metrics F) : Type 0 where
  pub requests : (length m.requests_total.names ≤ 3) × AllKeys (Parts 3) m.requests_total.values
  pub durations :
      (length m.request_duration.names ≤ 2) × AllKeys (Parts 2) m.request_duration.values
  pub states :
      (length m.circuit_breaker_state.names ≤ 2) × AllKeys (Parts 2) m.circuit_breaker_state.values
  pub rejections :
      (length m.rate_limit_rejections.names ≤ 1) × AllKeys (Parts 1) m.rate_limit_rejections.values

module _ {F : Type 0} (floats : Floats F) where
  unfoldable pub apply : Event → Metrics F → Metrics F
  apply connected m = record m { active_connections = gauge_inc floats m.active_connections }
  apply disconnected m = record m { active_connections = gauge_dec floats m.active_connections }
  apply (requested route method code elapsed) m = record_request floats route method code elapsed m
  apply (rejected route) m = record_rate_limit_rejection floats route m
  apply (exported snapshot) m = set_breaker_states floats snapshot m

  unfoldable pub apply_all : List Event → Metrics F → Metrics F
  apply_all [] m = m
  apply_all (e ∷ events) m = apply_all events (apply e m)

  set_states-AllKeys :
      (snapshot : Map ℤ) (v : GaugeVec F)
      → AllKeys (Parts 2) v.values
      → (AllKeys (Parts 2) (set_states floats snapshot v).values)
        × ((set_states floats snapshot v).names ≡ v.names)
  unfolding set_states gauge_vec_set
  set_states-AllKeys [] v all = (all, refl)
  set_states-AllKeys ((key, state) ∷ snapshot) v all = set_states-AllKeys snapshot _ (
      AllKeys-insert (Parts 2) (join_labels (key ∷ [] ∷ [])) (floats.of_int state) v.values
        (length-split-join_labels key ([] ∷ [])) all)

  apply-IsLabelled : (e : Event) (m : Metrics F) → IsLabelled m → IsLabelled (apply e m)
  unfolding apply record_request record_rate_limit_rejection set_breaker_states counter_inc observe
      gauge_vec_reset
  apply-IsLabelled connected m h = record {
    requests = h.requests;
    durations = h.durations;
    states = h.states;
    rejections = h.rejections;
  }
  apply-IsLabelled disconnected m h = record {
    requests = h.requests;
    durations = h.durations;
    states = h.states;
    rejections = h.rejections;
  }
  apply-IsLabelled (requested route method code elapsed) m h = record {
    requests = (
      h.requests.0,
      AllKeys-insert (Parts 3) _ _ m.requests_total.values
          (length-split-join_labels route (method ∷ code ∷ [])) h.requests.1,
    );
    durations = (
      h.durations.0,
      AllKeys-insert (Parts 2) _ _ m.request_duration.values
          (length-split-join_labels route (method ∷ [])) h.durations.1,
    );
    states = h.states;
    rejections = h.rejections;
  }
  apply-IsLabelled (rejected route) m h = record {
    requests = h.requests;
    durations = h.durations;
    states = h.states;
    rejections = (
      h.rejections.0,
      AllKeys-insert (Parts 1) _ _ m.rate_limit_rejections.values
          (length-split-join_labels route []) h.rejections.1,
    );
  }
  apply-IsLabelled (exported snapshot) m h =
      let (all, same) = set_states-AllKeys snapshot (gauge_vec_reset m.circuit_breaker_state) tt in
      record {
        requests = h.requests;
        durations = h.durations;
        states = (rw same h.states.0, all);
        rejections = h.rejections;
      }

  pub apply_all-IsLabelled :
      (events : List Event) (m : Metrics F) → IsLabelled m → IsLabelled (apply_all events m)
  unfolding apply_all
  apply_all-IsLabelled [] m h = h
  apply_all-IsLabelled (e ∷ events) m h =
      apply_all-IsLabelled events (apply e m) (apply-IsLabelled e m h)

  pub new_metrics-IsLabelled : IsLabelled (new_metrics floats)
  unfolding new_metrics new_counter_vec new_histogram_vec new_gauge_vec
  new_metrics-IsLabelled = record {
    requests = (omega arith, tt);
    durations = (omega arith, tt);
    states = (omega arith, tt);
    rejections = (omega arith, tt);
  }
