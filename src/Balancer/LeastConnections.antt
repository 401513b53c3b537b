-- ===== src/Balancer/LeastConnections.antt =====
-- internal/balancer/leastconn.go
pub mod Least
pub mod Outstanding
use gogateway.Base.{Option, none, some, List, [], ◌∷◌, if◌then◌else◌}
use gogateway.Base.Int.{ℤ, pos, ltb_ℤ, max_int, incr, decr}
use gogateway.Base.Text.{Text}
use gogateway.Base.Maps.{Map, lookup, insert}

pub record LeastConnections : Type 0 where
  -- map[string]int64
  pub conns : Map ℤ

unfoldable pub new_least_connections : LeastConnections
new_least_connections = record { conns = [] }

abbrev pub or_zero : Option ℤ → ℤ
or_zero none = pos 0
or_zero (some n) = n

-- lc.conns[key]
unfoldable pub count : Text → LeastConnections → ℤ
count key lc = or_zero (lookup key lc.conns)

abbrev pub floor_zero : ℤ → ℤ
floor_zero n = if ltb_ℤ n (pos 0) then pos 0 else n

module _ {ℓ} {A : Type ℓ} (url_string : A → Text) where
  -- The loop of `Next`, from the best endpoint so far and its count.
  unfoldable pub scan : LeastConnections → List A → Option A → ℤ → Option A
  scan lc [] best best_count = best
  scan lc (ep ∷ eps) best best_count =
      let n = count (url_string ep) lc in
      let closer = scan lc eps (some ep) n in
      let kept = scan lc eps best best_count in if ltb_ℤ n best_count then closer else kept

  unfoldable pub bump : (ℤ → ℤ) → A → LeastConnections → LeastConnections
  bump f ep lc =
      let key = url_string ep in record { conns = insert key (f (count key lc)) lc.conns }

  -- `best.String()` of a nil `best` is a panic.
  unfoldable pub next : List A → LeastConnections → Option (A × LeastConnections)
  unfolding bump
  next endpoints lc = elim (scan lc endpoints none max_int) [
    | none ↦ none
    | some best ↦ some (best, bump incr best lc)
  ]

  unfoldable pub done : A → LeastConnections → LeastConnections
  unfolding bump
  done ep lc = bump (λ n. floor_zero (decr n)) ep lc
