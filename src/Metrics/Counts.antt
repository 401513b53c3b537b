-- ===== src/Metrics/Counts.antt =====
-- The counters of internal/metrics/prometheus.go after any events.
use gogateway.Base.{
  ℕ, zero, suc, ◌+◌, ◌≡◌, ◌↔◌, refl, sym, ap, ◌∙◌, Bool, true, false, ◌&&◌, List, [], ◌∷◌, All,
  if◌then◌else◌, Bool-cases, inl, inr, arith,
}
use gogateway.Base.Text.{Text, text_eq, text_eq_iff}
use gogateway.Base.Maps.{lookup, lookup-insert}
use gogateway.Metrics.{
  Floats, Metrics, CounterVec, join_labels, counter_inc, or_zero, new_metrics, new_counter_vec,
  record_request, record_rate_limit_rejection, set_breaker_states,
}
use gogateway.Metrics.Render.{split}
use gogateway.Metrics.Scrape.{
  Event, connected, disconnected, requested, rejected, exported, apply, apply_all,
}
use gogateway.Metrics.Labels.{Unbroken, split-join_labels}

-- The label lists are equal.
unfoldable pub same_labels : List Text → List Text → Bool
same_labels [] [] = true
same_labels (l ∷ ls) (m ∷ ms) = text_eq l m && same_labels ls ms
same_labels _ _ = false

pub same_labels_iff : (ls ms : List Text) → (same_labels ls ms ≡ true) ↔ (ls ≡ ms)
unfolding same_labels
same_labels_iff [] [] = ground arith
same_labels_iff [] (m ∷ ms) = ground arith
same_labels_iff (l ∷ ls) [] = ground arith
same_labels_iff (l ∷ ls) (m ∷ ms) = ground (arith, text_eq_iff l m, same_labels_iff ls ms)

-- Two keys are equal exactly if their labels are.
pub text_eq-join_labels :
    (l m : Text) (ls ms : List Text)
    → All Unbroken (l ∷ ls)
    → All Unbroken (m ∷ ms)
    → text_eq (join_labels (l ∷ ls)) (join_labels (m ∷ ms)) ≡ same_labels (l ∷ ls) (m ∷ ms)
text_eq-join_labels l m ls ms hl hm =
    elim (Bool-cases (text_eq (join_labels (l ∷ ls)) (join_labels (m ∷ ms)))) [
      | inl equal ↦
          let keys = (text_eq_iff (join_labels (l ∷ ls)) (join_labels (m ∷ ms))).0 equal in
          let labels : l ∷ ls ≡ m ∷ ms =
            sym (split-join_labels l ls hl) ∙ ap split keys ∙ split-join_labels m ms hm in
          equal ∙ sym ((same_labels_iff (l ∷ ls) (m ∷ ms)).1 labels)
      | inr differ ↦ elim (Bool-cases (same_labels (l ∷ ls) (m ∷ ms))) [
        | inr other ↦ differ ∙ sym other
        | inl same ↦
            let keys = ap join_labels ((same_labels_iff (l ∷ ls) (m ∷ ms)).0 same) in
            (text_eq_iff (join_labels (l ∷ ls)) (join_labels (m ∷ ms))).1 keys ∙ sym same
      ]
    ]

-- The labels of a request, if the event is one.
abbrev pub requests_of : List Event → List (List Text)
requests_of [] = []
requests_of (requested route method code elapsed ∷ events) =
    (route ∷ method ∷ code ∷ []) ∷ requests_of events
requests_of (connected ∷ events) = requests_of events
requests_of (disconnected ∷ events) = requests_of events
requests_of (rejected route ∷ events) = requests_of events
requests_of (exported snapshot ∷ events) = requests_of events

abbrev pub occurrences : List Text → List (List Text) → ℕ
occurrences ls [] = 0
occurrences ls (ms ∷ mss) =
    if same_labels ms ls then suc (occurrences ls mss) else occurrences ls mss

module _ {F : Type 0} (floats : Floats F) where
  -- The float that `n` increments of a counter give.
  abbrev pub counted_to : ℕ → F
  counted_to zero = floats.zero
  counted_to (suc n) = floats.plus (counted_to n) floats.one

  abbrev pub value_of : List Text → CounterVec F → F
  value_of ls v = or_zero floats (lookup (join_labels ls) v.values)

  value-counter_inc :
      (l m : Text) (ls ms : List Text) (v : CounterVec F)
      → All Unbroken (l ∷ ls)
      → All Unbroken (m ∷ ms)
      → value_of (m ∷ ms) (counter_inc floats (l ∷ ls) v) ≡ (
          if same_labels (l ∷ ls) (m ∷ ms)
          then floats.plus (value_of (m ∷ ms) v) floats.one
          else value_of (m ∷ ms) v)
  unfolding counter_inc
  value-counter_inc l m ls ms v hl hm =
      rw (lookup-insert, text_eq-join_labels l m ls ms hl hm)
        (elim (Bool-cases (same_labels (l ∷ ls) (m ∷ ms))) [
          | inl same ↦ rw same (
              ap (λ (ks : List Text). floats.plus (value_of ks v) floats.one)
                ((same_labels_iff (l ∷ ls) (m ∷ ms)).0 same))
          | inr other ↦ rw other refl
        ])

  -- The counter goes from `n` to `n` and the requests with its labels.
  apply_all-requests_total :
      (events : List Event) (route method code : Text) (n : ℕ) (m : Metrics F)
      → All (All Unbroken) (requests_of events)
      → All Unbroken (route ∷ method ∷ code ∷ [])
      → value_of (route ∷ method ∷ code ∷ []) m.requests_total ≡ counted_to n
      → value_of (route ∷ method ∷ code ∷ []) (apply_all floats events m).requests_total
        ≡ counted_to (n + occurrences (route ∷ method ∷ code ∷ []) (requests_of events))
  unfolding apply_all apply record_request record_rate_limit_rejection set_breaker_states
  apply_all-requests_total [] route method code n m all own start =
      start ∙ ap counted_to (omega arith)
  apply_all-requests_total (connected ∷ events) route method code n m all own start =
      apply_all-requests_total events route method code n _ all own start
  apply_all-requests_total (disconnected ∷ events) route method code n m all own start =
      apply_all-requests_total events route method code n _ all own start
  apply_all-requests_total (rejected r ∷ events) route method code n m all own start =
      apply_all-requests_total events route method code n _ all own start
  apply_all-requests_total (exported snapshot ∷ events) route method code n m all own start =
      apply_all-requests_total events route method code n _ all own start
  apply_all-requests_total (requested r q c elapsed ∷ events) route method code n m (here, all) own
        start =
      let ls = route ∷ method ∷ code ∷ [] in
      let ks = r ∷ q ∷ c ∷ [] in
      let counted =
        value-counter_inc r route (q ∷ c ∷ []) (method ∷ code ∷ []) m.requests_total here own in
      elim (Bool-cases (same_labels ks ls)) [
        | inl same ↦
            apply_all-requests_total events route method code (suc n) _ all own
              (counted ∙ rw same (ap (λ (x : F). floats.plus x floats.one) start))
            ∙ ap counted_to (rw same (omega arith))
        | inr other ↦
            apply_all-requests_total events route method code n _ all own (counted ∙ rw other start)
            ∙ ap counted_to (rw other refl)
      ]

  -- After any events the counter of a route, a method and a status code is the number of requests
  -- that were recorded with them, as a float to which 1 was added so often, if no label of a request
  -- has a zero byte.
  pub requests_total-eq :
      (events : List Event) (route method code : Text)
      → All (All Unbroken) (requests_of events)
      → All Unbroken (route ∷ method ∷ code ∷ [])
      → value_of
          (route ∷ method ∷ code ∷ [])
          (apply_all floats events (new_metrics floats)).requests_total
        ≡ counted_to (occurrences (route ∷ method ∷ code ∷ []) (requests_of events))
  unfolding new_metrics new_counter_vec lookup
  requests_total-eq events route method code all own =
      apply_all-requests_total events route method code 0 (new_metrics floats) all own refl
      ∙ ap counted_to (omega arith)
