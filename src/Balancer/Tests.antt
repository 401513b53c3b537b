-- ===== src/Balancer/Tests.antt =====
-- Runs of the balancers of internal/balancer.
use gogateway.Base.{◌≡◌, refl, none, some, List, [], ◌∷◌, if◌then◌else◌, arith}
use gogateway.Base.Int.{pos, incr, wrap64, ◌+ℤ◌}
use gogateway.Base.Text.{Text, text, text_eq}
use gogateway.Base.Maps.{lookup, insert}
use gogateway.Balancer.RoundRobin
use gogateway.Balancer.RoundRobin.Fair.{picks, round-rotates}
use gogateway.Balancer.LeastConnections.{
  LeastConnections, new_least_connections, count, scan, bump, next,
}
use gogateway.Balancer.LeastConnections.Least.{IsLeast, next-IsLeast}
use gogateway.Balancer.LeastConnections.Outstanding.{
  System, Reach, here, step, start, occurrences, counts_exact,
}

abbrev hosts : List Text
hosts = text "a" ∷ text "b" ∷ text "c" ∷ []

round-rotates_example :
    picks 3 hosts (record { counter = 4 })
    ≡ some (text "b" ∷ text "c" ∷ text "a" ∷ [], record { counter = 7 })
round-rotates_example = round-rotates hosts 4 (omega arith) (omega arith)

nothing_to_pick : RoundRobin.next {A = Text} [] (record { counter = 4 }) ≡ none
unfolding RoundRobin.next
nothing_to_pick = refl

abbrev same_text : Text → Text
same_text t = t

abbrev busy : LeastConnections
busy = record { conns = (text "a", pos 2) ∷ (text "b", pos 1) ∷ (text "c", pos 1) ∷ [] }

next-IsLeast_example :
    (ep : Text) × (lc : LeastConnections) × (next same_text hosts busy ≡ some (ep, lc))
    × IsLeast same_text busy hosts ep
    × ((j : Text) → count j lc ≡ (if text_eq ep j then incr (count ep busy) else count j busy))
unfolding count lookup text_eq
next-IsLeast_example = next-IsLeast same_text hosts busy (λ full. omega arith)

abbrev one_request : System same_text
one_request = record {
  balancer = record { conns = (text "a", pos 1) ∷ [] };
  under_way = text "a" ∷ [];
}

one_request-Reach : Reach same_text one_request
unfolding next scan count lookup insert bump incr wrap64 ◌+ℤ◌ new_least_connections
one_request-Reach = step _ _ here (start hosts refl (omega arith))

counts_exact_example :
    count (text "a") one_request.balancer ≡ pos (occurrences same_text (text "a") (text "a" ∷ []))
counts_exact_example = counts_exact same_text one_request-Reach (text "a")
