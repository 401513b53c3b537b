-- ===== src/Balancer/LeastConnections/Outstanding.antt =====
-- What the counters of internal/balancer/leastconn.go count, if every request calls `Next` once and
-- then `Done` once with the endpoint it was given.
use gogateway.Base.{
  ℕ, ◌+◌, ◌-◌, ◌≤◌, ◌<◌, ◌≡◌, refl, ap, ◌∙◌, some, List, [], ◌∷◌, ◌++◌, length, length-append,
  if◌then◌else◌, arith,
}
use gogateway.Base.Int.{pos, ◌-ℤ◌, incr, decr, decr_exact, incr-pos}
use gogateway.Base.Text.{Text, text_eq, text_eq_iff, text_eq_refl}
use gogateway.Base.Maps.{lookup}
use gogateway.Balancer.LeastConnections.{
  LeastConnections, new_least_connections, count, floor_zero, next, done,
}
use gogateway.Balancer.LeastConnections.Least.{count-bump}

decr-pos : (n : ℕ) → 0 < n → n ≤ 9223372036854775807 → floor_zero (decr (pos n)) ≡ pos (n - 1)
unfolding ◌-ℤ◌
decr-pos n positive fits =
    ap floor_zero (decr_exact (pos n) (omega arith) (omega arith)) ∙ ground arith

module _ {ℓ} {A : Type ℓ} (url_string : A → Text) where
  -- A balancer and the endpoints of the requests under way.
  pub record System : Type ℓ where
    pub balancer : LeastConnections
    pub under_way : List A

  -- A request is given an endpoint, or one under way completes. Fewer than 2 ^ 63 - 1 are under way.
  pub data Step (s : System) : System → Type ℓ where
    start :
        (endpoints : List A) {ep : A} {lc : LeastConnections}
        → next url_string endpoints s.balancer ≡ some (ep, lc)
        → length s.under_way < 9223372036854775807
        → Step s (record { balancer = lc; under_way = ep ∷ s.under_way })
    finish :
        (before : List A) (ep : A) (rest : List A)
        → s.under_way ≡ before ++ ep ∷ rest
        → Step s (record { balancer = done url_string ep s.balancer; under_way = before ++ rest })

  pub data Reach : System → Type ℓ where
    here : Reach (record { balancer = new_least_connections; under_way = [] })
    step : (s t : System) → Reach s → Step s t → Reach t

  abbrev pub occurrences : Text → List A → ℕ
  occurrences j [] = 0
  occurrences j (ep ∷ eps) = (if text_eq (url_string ep) j then 1 else 0) + occurrences j eps

  occurrences-middle :
      (j : Text) (before : List A) (ep : A) (rest : List A)
      → occurrences j (before ++ ep ∷ rest)
        ≡ (if text_eq (url_string ep) j then 1 else 0) + occurrences j (before ++ rest)
  occurrences-middle j [] ep rest = refl
  occurrences-middle j (e ∷ before) ep rest = omega (arith, occurrences-middle j before ep rest)

  occurrences-le-length : (j : Text) (eps : List A) → occurrences j eps ≤ length eps
  occurrences-le-length j [] = omega arith
  occurrences-le-length j (ep ∷ eps) = ground (arith, occurrences-le-length j eps)

  -- The list is one that fits in memory, so the counters have not reached the end of `int64`.
  record IsExact (s : System) : Type ℓ where
    exact : (j : Text) → count j s.balancer ≡ pos (occurrences j s.under_way)
    few : length s.under_way ≤ 9223372036854775807

  start-IsExact :
      (s : System) (endpoints : List A) {ep : A} {lc : LeastConnections}
      → IsExact s
      → next url_string endpoints s.balancer ≡ some (ep, lc)
      → length s.under_way < 9223372036854775807
      → IsExact (record { balancer = lc; under_way = ep ∷ s.under_way })
  unfolding next
  start-IsExact s endpoints {ep} x picked room =
      let own = occurrences-le-length (url_string ep) s.under_way in
      record {
        exact = λ j. ground (
          arith,
          count-bump url_string incr ep j s.balancer,
          x.exact j,
          x.exact (url_string ep),
          incr-pos (occurrences (url_string ep) s.under_way),
          text_eq_iff (url_string ep) j,
        );
        few = omega arith;
      }

  finish-IsExact :
      (s : System) (before : List A) (ep : A) (rest : List A)
      → IsExact s
      → s.under_way ≡ before ++ ep ∷ rest
      → IsExact (record { balancer = done url_string ep s.balancer; under_way = before ++ rest })
  unfolding done
  finish-IsExact s before ep rest x split =
      let own : occurrences (url_string ep) s.under_way
          ≡ 1 + occurrences (url_string ep) (before ++ rest) =
        ap (occurrences (url_string ep)) split
        ∙ occurrences-middle (url_string ep) before ep rest
        ∙ rw text_eq_refl in
      let bound = occurrences-le-length (url_string ep) s.under_way in
      record {
        exact = λ j. ground (
          arith,
          count-bump url_string (λ n. floor_zero (decr n)) ep j s.balancer,
          x.exact j,
          x.exact (url_string ep),
          decr-pos (occurrences (url_string ep) s.under_way),
          ap (occurrences j) split,
          occurrences-middle j before ep rest,
          text_eq_iff (url_string ep) j,
        );
        few = omega (
          arith,
          ap length split,
          length-append before (ep ∷ rest),
          length-append before rest,
          x.few,
        );
      }

  Step-IsExact : (s t : System) → IsExact s → Step s t → IsExact t
  Step-IsExact s t x (start endpoints picked room) = start-IsExact s endpoints x picked room
  Step-IsExact s t x (finish before ep rest split) = finish-IsExact s before ep rest x split

  Reach-IsExact : {s : System} → Reach s → IsExact s
  Reach-IsExact here = record {
    exact = λ j. unfold new_least_connections count lookup in refl;
    few = omega arith;
  }
  Reach-IsExact (step s t r st) = Step-IsExact s t (Reach-IsExact r) st

  -- However requests start and complete, the counter of an endpoint is the number of requests under
  -- way to endpoints with its URL, so it is never negative.
  pub counts_exact :
      {s : System} → Reach s → (j : Text) → count j s.balancer ≡ pos (occurrences j s.under_way)
  counts_exact r j = (Reach-IsExact r).exact j
