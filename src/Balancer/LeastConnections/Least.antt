-- ===== src/Balancer/LeastConnections/Least.antt =====
-- Which endpoint internal/balancer/leastconn.go picks.
use gogateway.Base.{
  ◌≡◌, refl, ap, Option, none, some, List, [], ◌∷◌, ◌++◌, if◌then◌else◌, Bool-cases, inl, inr, All,
  arith,
}
use gogateway.Base.Int.{ℤ, ◌≤ℤ◌, ◌<ℤ◌, ltb_ℤ, ltb_ℤ_iff, max_int, incr}
use gogateway.Base.Text.{Text, text_eq}
use gogateway.Base.Maps.{lookup-insert}
use gogateway.Balancer.LeastConnections.{LeastConnections, count, scan, bump, next}

module _ {ℓ} {A : Type ℓ} (url_string : A → Text) where
  pub count-bump :
      (f : ℤ → ℤ) (ep : A) (j : Text) (lc : LeastConnections)
      → count j (bump url_string f ep lc)
        ≡ (if text_eq (url_string ep) j then f (count (url_string ep) lc) else count j lc)
  unfolding count bump
  count-bump f ep j lc =
      rw lookup-insert
        (elim (Bool-cases (text_eq (url_string ep) j)) [ inl e ↦ rw e | inr e ↦ rw e ])

  -- The endpoint stands in the list, those before it have more connections, those after it no fewer.
  pub record IsLeast (lc : LeastConnections) (endpoints : List A) (ep : A) : Type ℓ where
    pub before : List A
    pub rest : List A
    pub split : endpoints ≡ before ++ ep ∷ rest
    pub before_more : All (λ e. count (url_string ep) lc <ℤ count (url_string e) lc) before
    pub rest_no_fewer : All (λ e. count (url_string ep) lc ≤ℤ count (url_string e) lc) rest

  -- what the loop has found, when it began with `best` of count `n`
  data Found (lc : LeastConnections) (eps : List A) (best : Option A) (n : ℤ) (r : Option A)
      : Type ℓ where
    kept : r ≡ best → All (λ e. n ≤ℤ count (url_string e) lc) eps → Found lc eps best n r
    improved :
        (ep : A)
        → r ≡ some ep
        → IsLeast lc eps ep
        → count (url_string ep) lc <ℤ n
        → Found lc eps best n r

  IsLeast-cons :
      (lc : LeastConnections) (e : A) (eps : List A) (ep : A)
      → IsLeast lc eps ep
      → count (url_string ep) lc <ℤ count (url_string e) lc
      → IsLeast lc (e ∷ eps) ep
  IsLeast-cons lc e eps ep least less = record {
    before = e ∷ least.before;
    rest = least.rest;
    split = ap (λ (l : List A). e ∷ l) least.split;
    before_more = (less, least.before_more);
    rest_no_fewer = least.rest_no_fewer;
  }

  scan-Found :
      (lc : LeastConnections) (eps : List A) (best : Option A) (n : ℤ)
      → Found lc eps best n (scan url_string lc eps best n)
  unfolding scan
  scan-Found lc [] best n = kept refl tt
  scan-Found lc (ep ∷ eps) best n = elim (Bool-cases (ltb_ℤ (count (url_string ep) lc) n)) [
    | inl e ↦
        let lt = (ltb_ℤ_iff (count (url_string ep) lc) n).0 e in
        rw e (elim (scan-Found lc eps (some ep) (count (url_string ep) lc)) [
          | kept same all ↦
              improved ep same
                (record {
                  before = [];
                  rest = eps;
                  split = refl;
                  before_more = tt;
                  rest_no_fewer = all;
                })
                lt
          | improved ep' same least less ↦
              improved ep' same (IsLeast-cons lc ep eps ep' least less) (omega arith)
        ])
    | inr e ↦
        let le : n ≤ℤ count (url_string ep) lc = ground arith in
        rw e (elim (scan-Found lc eps best n) [
          | kept same all ↦ kept same (le, all)
          | improved ep' same least less ↦
              improved ep' same (IsLeast-cons lc ep eps ep' least (omega arith)) less
        ])
  ]

  -- If some endpoint has fewer than 2 ^ 63 - 1 connections `Next` returns the first of those with
  -- the fewest, counts one more connection for it, and leaves every other count as it is.
  pub next-IsLeast :
      (endpoints : List A) (lc : LeastConnections)
      → ¬ All (λ e. max_int ≤ℤ count (url_string e) lc) endpoints
      → (ep : A) × (lc' : LeastConnections) × (next url_string endpoints lc ≡ some (ep, lc'))
        × IsLeast lc endpoints ep
        × ((j : Text)
            → count j lc'
              ≡ (if text_eq (url_string ep) j then incr (count (url_string ep) lc) else count j lc))
  unfolding next
  next-IsLeast endpoints lc room = elim (scan-Found lc endpoints none max_int) [
    | kept same all ↦ absurd (room all)
    | improved ep same least less ↦
        (ep, bump url_string incr ep lc, rw (same, next), least, λ j. count-bump incr ep j lc)
  ]
