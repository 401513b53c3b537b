-- ===== src/Metrics/Tests.antt =====
-- A scrape of internal/metrics/prometheus.go after two requests. The floats are natural numbers.
use gogateway.Base.{
  ℕ, ◌+◌, ◌-◌, ◌≡◌, refl, leb, ◌==◌, ◌*◌, ◌/◌, none, some, inl, inr, List, [], ◌∷◌, ◌++◌,
}
use mathlib.Core.List.{Perm}
use gogateway.Base.Int.{pos, pos_part}
use gogateway.Base.Text.{Text, text, text_eq}
use gogateway.Base.Decimal.{itoa, digits}
use gogateway.Base.Maps.{Map, lookup, insert}
use gogateway.Metrics.{
  Floats, new_metrics, new_counter_vec, record_request, counter_inc, join_labels,
  set_breaker_states, record_rate_limit_rejection, Metrics,
}
use gogateway.Metrics.Render.{
  render_map, each, format_labels, pairs, split, sorted_keys, insert_sorted, text_leb,
}
use gogateway.Metrics.Scrape.{Event, connected, requested, rejected, exported, apply, apply_all}
use gogateway.Metrics.Sorted.{IsAscending, keys}
use gogateway.Metrics.Printed.{Lines, render_map-Lines}
use gogateway.Metrics.Histograms.{histogram_of, histogram_of-exact}
use gogateway.Metrics.Counts.{same_labels}

abbrev naturals : Floats ℕ
naturals = record {
  zero = 0;
  one = 1;
  literal = λ s. 0;
  plus = λ a b. a + b;
  minus = λ a b. a - b;
  at_most = leb;
  equals = λ a b. a == b;
  of_int = pos_part;
  seconds = λ d. 0;
}

abbrev literals : Map ℕ
literals =
    (text ".005", 5)
    ∷ (text ".01", 10)
    ∷ (text ".025", 25)
    ∷ (text ".05", 50)
    ∷ (text ".1", 100)
    ∷ (text ".25", 250)
    ∷ (text ".5", 500)
    ∷ (text "1", 1000)
    ∷ (text "2.5", 2500)
    ∷ (text "5", 5000)
    ∷ (text "10", 10000)
    ∷ []

-- Floats that count milliseconds.
abbrev millis : Floats ℕ
millis = record {
  zero = 0;
  one = 1000;
  literal = λ s. elim (lookup s literals) [ none ↦ 0 | some n ↦ n ];
  plus = λ a b. a + b;
  minus = λ a b. a - b;
  at_most = leb;
  equals = λ a b. a == b;
  of_int = λ n. pos_part n * 1000;
  seconds = λ d. pos_part d / 1000000;
}

abbrev print : ℕ → Text
print n = itoa (pos n)

abbrev events : List Event
events =
    connected
    ∷ requested (text "users") (text "GET") (text "200") (pos 5)
    ∷ requested (text "users") (text "GET") (text "200") (pos 6)
    ∷ requested (text "orders") (text "GET") (text "503") (pos 6)
    ∷ rejected (text "users")
    ∷ exported ((text "users:u1", pos 1) ∷ [])
    ∷ []

abbrev told : Metrics ℕ
told = apply_all naturals events (new_metrics naturals)

abbrev requests_text : Text
requests_text =
    text "r{route="
    ++ b'"' ∷ text "orders"
    ++ b'"' ∷ text ",method="
    ++ b'"' ∷ text "GET"
    ++ b'"' ∷ text ",status_code="
    ++ b'"' ∷ text "503"
    ++ b'"' ∷ text "} 1"
    ++ 10 ∷ text "r{route="
    ++ b'"' ∷ text "users"
    ++ b'"' ∷ text ",method="
    ++ b'"' ∷ text "GET"
    ++ b'"' ∷ text ",status_code="
    ++ b'"' ∷ text "200"
    ++ b'"' ∷ text "} 2"
    ++ 10 ∷ []

requests_lines :
    render_map naturals print (text "r") told.requests_total.names told.requests_total.values
    ≡ some requests_text
unfolding apply_all apply new_metrics new_counter_vec record_request counter_inc join_labels insert
    lookup text_eq render_map each format_labels pairs split sorted_keys insert_sorted text_leb itoa
    digits set_breaker_states record_rate_limit_rejection
requests_lines = refl

render_map-Lines_example :
    (ks : List Text) × IsAscending ks
    × Perm ks (keys told.requests_total.values)
    × Lines naturals print
        (text "r")
        told.requests_total.names
        told.requests_total.values
        ks
        requests_text
render_map-Lines_example =
    render_map-Lines naturals print (text "r") told.requests_total.names told.requests_total.values
      requests_text requests_lines

abbrev timed : List Event
timed =
    requested (text "users") (text "GET") (text "200") (pos 4000000)
    ∷ requested (text "users") (text "GET") (text "502") (pos 30000000)
    ∷ requested (text "users") (text "POST") (text "200") (pos 1000000)
    ∷ requested (text "users") (text "GET") (text "200") (pos 10000000)
    ∷ []

histogram_of-exact_example :
    let h =
      histogram_of millis
        (text "users")
        (text "GET")
        (apply_all millis timed (new_metrics millis)).request_duration in
    (h.count ≡ 3) × (h.sum ≡ 44) × (h.buckets 10 ≡ 2)
unfolding same_labels text_eq lookup
histogram_of-exact_example =
    histogram_of-exact millis timed (text "users") (text "GET") 10
      (inr (
        refl,
        inl (
          refl,
          refl,
          (refl, (refl, (refl, (refl, (refl, (refl, (refl, (refl, (refl, tt))))))))),
        ),
      ))
      (
        (refl, (refl, (refl, tt))),
        (
          (refl, (refl, (refl, tt))),
          ((refl, (refl, (refl, tt))), ((refl, (refl, (refl, tt))), tt)),
        ),
      )
      (refl, (refl, tt))
