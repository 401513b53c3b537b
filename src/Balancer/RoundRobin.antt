-- ===== src/Balancer/RoundRobin.antt =====
-- internal/balancer/roundrobin.go
pub mod Fair
use gogateway.Base.{ℕ, ◌+◌, ◌%◌, Option, none, some, List, length, get_elem?, ◌==◌, if◌then◌else◌}
use gogateway.Base.Int.{two64}

pub record RoundRobin : Type 0 where
  -- uint64
  pub counter : ℕ

unfoldable pub new_round_robin : RoundRobin
new_round_robin = record { counter = 0 }

-- Over no endpoints `rr.counter % n` divides by zero.
unfoldable pub next {ℓ} : {A : Type ℓ} → List A → RoundRobin → Option (A × RoundRobin)
next endpoints rr =
    let n = length endpoints in
    if n == 0 then none else elim (get_elem? endpoints (rr.counter % n)) [
      | none ↦ none
      | some ep ↦ some (ep, record { counter = (rr.counter + 1) % two64 })
    ]
