-- ===== src/Metrics/Histograms.antt =====
-- The histograms of internal/metrics/prometheus.go after any events.
use gogateway.Base.{
  ℕ, suc, ◌+◌, ◌%◌, ◌≡◌, ◌⊎◌, refl, sym, ap, ◌∙◌, true, false, none, List, [], ◌∷◌, All, length,
  if◌then◌else◌, Bool-cases, inl, inr, arith,
}
use gogateway.Base.Int.{two64}
use gogateway.Base.Text.{Text}
use gogateway.Base.Maps.{lookup, lookup-insert}
use gogateway.Metrics.{
  Floats, Metrics, Histogram, HistogramVec, join_labels, or_new, observe, fill, default_buckets,
  new_metrics, new_histogram_vec, record_request, record_rate_limit_rejection, set_breaker_states,
}
use gogateway.Metrics.Scrape.{
  Event, connected, disconnected, requested, rejected, exported, apply, apply_all,
}
use gogateway.Metrics.Labels.{Unbroken}
use gogateway.Metrics.Counts.{same_labels, same_labels_iff, text_eq-join_labels, requests_of}

module _ {F : Type 0} (floats : Floats F) where
  -- `==` holds of the bound and one place of the list, which has the bound.
  abbrev pub Sole : F → List F → Type 0
  Sole x [] = ⊥
  Sole x (b ∷ bs) =
      ((floats.equals x b ≡ true) × (x ≡ b) × All (λ c. floats.equals x c ≡ false) bs)
      ⊎ ((floats.equals x b ≡ false) × Sole x bs)

  fill-other :
      (val x : F) (bs : List F) (counts : F → ℕ)
      → All (λ c. floats.equals x c ≡ false) bs
      → fill floats val bs counts x ≡ counts x
  unfolding fill
  fill-other val x [] counts all = refl
  fill-other val x (b ∷ bs) counts (here, all) =
      fill-other val x bs _ all ∙ elim (Bool-cases (floats.at_most val b)) [
        | inl low ↦ rw (low, here) refl
        | inr high ↦ rw high refl
      ]

  -- One observation counts once in the bucket.
  fill-Sole :
      (val x : F) (bs : List F) (counts : F → ℕ)
      → Sole x bs
      → fill floats val bs counts x
        ≡ (if floats.at_most val x then (counts x + 1) % two64 else counts x)
  unfolding fill
  fill-Sole val x [] counts sole = elim sole [ ]
  fill-Sole val x (b ∷ bs) counts (inl (same, is, all)) =
      let reads = ap (λ (y : F). floats.at_most val y) (sym is) in
      fill-other val x bs _ all
      ∙ rw reads (elim (Bool-cases (floats.at_most val x)) [
        | inl low ↦ rw (low, same) refl
        | inr high ↦ rw high refl
      ])
  fill-Sole val x (b ∷ bs) counts (inr (other, sole)) =
      fill-Sole val x bs _ sole ∙ elim (Bool-cases (floats.at_most val b)) [
        | inl low ↦ rw (low, other) refl
        | inr high ↦ rw high refl
      ]

  -- The seconds of the requests of a route and a method, in their order.
  abbrev pub durations_of : Text → Text → List Event → List F
  durations_of route method [] = []
  durations_of route method (requested r q code elapsed ∷ events) =
      let rest = durations_of route method events in
      if same_labels (r ∷ q ∷ []) (route ∷ method ∷ []) then floats.seconds elapsed ∷ rest else rest
  durations_of route method (connected ∷ events) = durations_of route method events
  durations_of route method (disconnected ∷ events) = durations_of route method events
  durations_of route method (rejected r ∷ events) = durations_of route method events
  durations_of route method (exported snapshot ∷ events) = durations_of route method events

  -- How many values are at most the bound.
  abbrev pub at_most_count : F → List F → ℕ
  at_most_count x [] = 0
  at_most_count x (val ∷ vals) =
      let rest = at_most_count x vals in if floats.at_most val x then suc rest else rest

  -- The values added one after the other.
  abbrev pub sum_from : F → List F → F
  sum_from acc [] = acc
  sum_from acc (val ∷ vals) = sum_from (floats.plus acc val) vals

  -- The histogram of a route and a method; what was never observed reads as an empty one.
  abbrev pub histogram_of : Text → Text → HistogramVec F → Histogram F
  histogram_of route method v = or_new floats (lookup (join_labels (route ∷ method ∷ [])) v.values)

  -- One observation, and several.
  abbrev seen : List F → F → Histogram F → Histogram F
  seen bounds val h = record {
    count = (h.count + 1) % two64;
    sum = floats.plus h.sum val;
    buckets = fill floats val bounds h.buckets;
  }

  abbrev all_seen : List F → List F → Histogram F → Histogram F
  all_seen bounds [] h = h
  all_seen bounds (val ∷ vals) h = all_seen bounds vals (seen bounds val h)

  count-all_seen :
      (bounds vals : List F) (n : ℕ) (h : Histogram F)
      → h.count ≡ n % two64
      → (all_seen bounds vals h).count ≡ (n + length vals) % two64
  count-all_seen bounds [] n h start = ground arith
  count-all_seen bounds (val ∷ vals) n h start =
      count-all_seen bounds vals (suc n) (seen bounds val h) (omega arith)
      ∙ ap (λ (k : ℕ). k % two64) (omega arith)

  buckets-all_seen :
      (bounds vals : List F) (x : F) (n : ℕ) (h : Histogram F)
      → Sole x bounds
      → h.buckets x ≡ n % two64
      → (all_seen bounds vals h).buckets x ≡ (n + at_most_count x vals) % two64
  buckets-all_seen bounds [] x n h sole start = ground arith
  buckets-all_seen bounds (val ∷ vals) x n h sole start =
      let once = fill-Sole val x bounds h.buckets sole in
      elim (Bool-cases (floats.at_most val x)) [
        | inl low ↦
            buckets-all_seen bounds vals x (suc n) (seen bounds val h) sole
              (once ∙ rw low (omega arith))
            ∙ rw low (ap (λ (k : ℕ). k % two64) (omega arith))
        | inr high ↦
            buckets-all_seen bounds vals x n (seen bounds val h) sole (once ∙ rw high start)
            ∙ rw high refl
      ]

  sum-all_seen :
      (bounds vals : List F) (h : Histogram F) → (all_seen bounds vals h).sum ≡ sum_from h.sum vals
  sum-all_seen bounds [] h = refl
  sum-all_seen bounds (val ∷ vals) h = sum-all_seen bounds vals (seen bounds val h)

  histogram_of-observe :
      (val : F) (r q route method : Text) (v : HistogramVec F)
      → All Unbroken (r ∷ q ∷ [])
      → All Unbroken (route ∷ method ∷ [])
      → histogram_of route method (observe floats val (r ∷ q ∷ []) v) ≡ (
          if same_labels (r ∷ q ∷ []) (route ∷ method ∷ [])
          then seen v.buckets val (histogram_of route method v)
          else histogram_of route method v)
  unfolding observe
  histogram_of-observe val r q route method v hl hm =
      rw (lookup-insert, text_eq-join_labels r route (q ∷ []) (method ∷ []) hl hm)
        (elim (Bool-cases (same_labels (r ∷ q ∷ []) (route ∷ method ∷ []))) [
          | inl same ↦ rw same (
              ap
                (λ (ks : List Text).
                  seen v.buckets val (or_new floats (lookup (join_labels ks) v.values)))
                ((same_labels_iff (r ∷ q ∷ []) (route ∷ method ∷ [])).0 same))
          | inr other ↦ rw other refl
        ])

  apply_all-histogram_of :
      (events : List Event) (route method : Text) (m : Metrics F)
      → All (All Unbroken) (requests_of events)
      → All Unbroken (route ∷ method ∷ [])
      → histogram_of route method (apply_all floats events m).request_duration
        ≡ all_seen m.request_duration.buckets
            (durations_of route method events)
            (histogram_of route method m.request_duration)
  unfolding apply_all apply record_request record_rate_limit_rejection set_breaker_states observe
  apply_all-histogram_of [] route method m all own = refl
  apply_all-histogram_of (connected ∷ events) route method m all own =
      apply_all-histogram_of events route method _ all own
  apply_all-histogram_of (disconnected ∷ events) route method m all own =
      apply_all-histogram_of events route method _ all own
  apply_all-histogram_of (rejected r ∷ events) route method m all own =
      apply_all-histogram_of events route method _ all own
  apply_all-histogram_of (exported snapshot ∷ events) route method m all own =
      apply_all-histogram_of events route method _ all own
  apply_all-histogram_of (requested r q c elapsed ∷ events) route method m ((hr, (hq, hc)), all)
        own =
      let once =
        histogram_of-observe (floats.seconds elapsed) r q route method m.request_duration
          (hr, (hq, tt)) own in
      apply_all-histogram_of events route method _ all own
      ∙ rw once (elim (Bool-cases (same_labels (r ∷ q ∷ []) (route ∷ method ∷ []))) [
        | inl same ↦ rw same refl
        | inr other ↦ rw other refl
      ])

  -- After any events the histogram of a route and a method has the number of the requests recorded
  -- with them as its count, their durations in seconds added in order as its sum, and under a bound
  -- the number of those with at most that many seconds, the numbers modulo 2^64. The bound has one
  -- place among the default bounds where `==` finds it, and no label has a zero byte.
  pub histogram_of-exact :
      (events : List Event) (route method : Text) (x : F)
      → Sole x (default_buckets floats)
      → All (All Unbroken) (requests_of events)
      → All Unbroken (route ∷ method ∷ [])
      → let h =
          histogram_of route method
            (apply_all floats events (new_metrics floats)).request_duration in
        let vals = durations_of route method events in
        (h.count ≡ length vals % two64)
        × (h.sum ≡ sum_from floats.zero vals)
        × (h.buckets x ≡ at_most_count x vals % two64)
  unfolding new_metrics new_histogram_vec lookup
  histogram_of-exact events route method x sole all own =
      let vals = durations_of route method events in
      let bounds = default_buckets floats in
      let empty = or_new floats none in
      let e = apply_all-histogram_of events route method (new_metrics floats) all own in
      (
        ap (λ (h : Histogram F). h.count) e
            ∙ count-all_seen bounds vals 0 empty refl
            ∙ ap (λ (k : ℕ). k % two64) (omega arith),
        ap (λ (h : Histogram F). h.sum) e ∙ sum-all_seen bounds vals empty,
        ap (λ (h : Histogram F). h.buckets x) e
            ∙ buckets-all_seen bounds vals x 0 empty sole refl
            ∙ ap (λ (k : ℕ). k % two64) (omega arith),
      )
