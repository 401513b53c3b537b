-- ===== src/Server/Safety.antt =====
-- No request panics in the handler of internal/server/server.go.
use gogateway.Base.{
  ◌≡◌, ◌⊎◌, sym, ◌∙◌, ap, ◌+◌, ◌%◌, Bool, true, false, some, List, [], ◌∷◌, if◌then◌else◌,
  Bool-cases, Option-cases, inl, inr, arith, length, get_elem?_total,
}
use mathlib.Core.Path.{subst}
use native.Mathlib.Nat.{mod-lt}
use gogateway.Base.Int.{two64}
use gogateway.Base.Text.{Text, text_eq, text_eq_iff}
use gogateway.Base.Maps.{Map, lookup, insert, lookup-insert}
use gogateway.Config.{Route}
use gogateway.Http.{Url, Request}
use gogateway.Router.{Router, match, match_in, match_route}
use gogateway.Discovery.{get_endpoints, Listed}
use gogateway.Balancer.RoundRobin.{RoundRobin, next, new_round_robin}
use gogateway.Breaker.History.{asked}
use gogateway.BreakerStore.{get_or_create, call_at}
use gogateway.Server.{Outside, Server, Readings}
use gogateway.Server.Recorder.{StatusRecorder, ResponseWriter, new_status_recorder}
use gogateway.Server.Authenticate.{authenticate}
use gogateway.Server.RateLimit.{check_rate_limit}
use gogateway.Server.Handler.{
  Admission, answered, panicked, forwarded, enabled_breaker, circuit_open, allow_at, admit, pick,
  resolve, handle, count_in, begin,
}
use gogateway.Server.Start.{make_balancers}
use gogateway.Server.Kept.{Kept, check_rate_limit-Kept}

pub match_in-Listed :
    (routes : List Route) (req : Request) (route : Route)
    → match_in routes req ≡ some route
    → Listed route routes
unfolding match_in
match_in-Listed [] req route e = ground arith
match_in-Listed (r ∷ rs) req route e = elim (Bool-cases (match_route r req)) [
  | inl hit ↦ inl (ground arith)
  | inr miss ↦ inr (match_in-Listed rs req route (ground arith))
]

pub next_total :
    (ep : Url) (eps : List Url) (lb : RoundRobin)
    → (answer : Url × RoundRobin) × (next (ep ∷ eps) lb ≡ some answer)
unfolding next
next_total ep eps lb =
    let (found, here) =
      get_elem?_total (ep ∷ eps) (lb.counter % length (ep ∷ eps))
        (mod-lt lb.counter (omega arith)) in
    ((found, record { counter = (lb.counter + 1) % two64 }), ground arith)

pub make_balancers-keep :
    (routes : List Route) (balancers : Map RoundRobin) (k : Text)
    → ((lb : RoundRobin) × (lookup k balancers ≡ some lb))
      ⊎ ((r : Route) × (r.id ≡ k) × Listed r routes)
    → (lb : RoundRobin) × (lookup k (make_balancers routes balancers) ≡ some lb)
unfolding make_balancers
make_balancers-keep [] balancers k (inl there) = there
make_balancers-keep [] balancers k (inr (r, same, listed)) = absurd listed
make_balancers-keep (route ∷ routes) balancers k there =
    make_balancers-keep routes (insert route.id new_round_robin balancers) k
      (elim (Bool-cases (text_eq route.id k)) [
        | inl same ↦ inl (new_round_robin, rw (lookup-insert, same))
        | inr other ↦ elim there [
          | inl (lb, found) ↦ inl (lb, rw (lookup-insert, other) found)
          | inr (r, same, inl here) ↦ ground (arith, text_eq_iff route.id k)
          | inr (r, same, inr listed) ↦ inr (r, same, listed)
        ]
      ])

abbrev pub NotPanicked : Admission → Type 0
NotPanicked (answered w) = Unit
NotPanicked (panicked w) = ⊥
NotPanicked (forwarded f) = Unit

NotPanicked-if :
    {A : Type 0} (c : Bool) (t e : A × Admission)
    → NotPanicked t.1
    → NotPanicked e.1
    → NotPanicked (if c then t else e).1
NotPanicked-if true t e p q = p
NotPanicked-if false t e p q = q

module _ {F : Type 0} where
  -- The route has endpoints and a balancer.
  abbrev pub Provided : Server F → Route → Type 0
  Provided s r =
      ((ep : Url) × (eps : List Url) × (get_endpoints r.id s.registry ≡ some (ep ∷ eps)))
      × ((lb : RoundRobin) × (lookup r.id s.balancers ≡ some lb))

  -- Every route of the table has.
  abbrev pub Ready : Server F → Type 0
  Ready s = (r : Route) → Listed r s.router.routes → Provided s r

  pub Ready-Kept : (s t : Server F) → Kept s t → Ready s → Ready t
  Ready-Kept s t kept ready r listed =
      let ((ep, eps, found), (lb, there)) =
        ready r (subst (λ (x : Router). Listed r x.routes) kept.router listed) in
      let (lb', there') = kept.balanced r.id lb there in
      ((ep, eps, ap (get_endpoints r.id) kept.registry ∙ found), (lb', there'))

module _ {F : Type 0} (out : Outside F) (rd : Readings) (route : Route) where
  admit-NotPanicked :
      (target : Url) (r : Request) (w : StatusRecorder) (s : Server F)
      → NotPanicked (admit out rd route target r w s).1
  unfolding admit
  admit-NotPanicked target r w s = elim (Option-cases (enabled_breaker route)) [
    | inl unprotected ↦ rw (admit, unprotected) tt
    | inr (cfg, protected) ↦
        let (bs, key) =
          get_or_create route.id (out.url_string target) cfg s.breaker_store s.breaker_store in
        let asked_store = record s { breaker_store = call_at key (asked rd.breaker_now) bs } in
        rw (admit, protected)
          (NotPanicked-if (allow_at key rd.breaker_now bs)
            (
              asked_store,
              forwarded (record { route = route; target = target; request = r; recorder = w }),
            )
            (asked_store, answered (circuit_open w)) tt tt)
  ]

  pick-NotPanicked :
      (ep : Url) (eps : List Url) (lb : RoundRobin) (r : Request) (w : StatusRecorder)
      (s : Server F)
      → lookup route.id s.balancers ≡ some lb
      → NotPanicked (pick out rd route (ep ∷ eps) r w s).1
  unfolding pick
  pick-NotPanicked ep eps lb r w s there =
      let ((target, lb'), picked) = next_total ep eps lb in
      rw (pick, there, picked) (admit-NotPanicked target r w _)

  resolve-NotPanicked :
      (r : Request) (w : StatusRecorder) (s : Server F)
      → Provided s route
      → NotPanicked (resolve out rd route r w s).1
  unfolding resolve
  resolve-NotPanicked r w s ((ep, eps, found), (lb, there)) =
      rw (resolve, found) (pick-NotPanicked ep eps lb r w s there)

  handle-NotPanicked :
      (r : Request) (w : StatusRecorder) (s : Server F)
      → Ready s
      → Listed route s.router.routes
      → NotPanicked (handle out rd route r w s).1
  unfolding handle
  handle-NotPanicked r w s ready listed =
      let checked = authenticate out s route r w in
      let after = check_rate_limit out rd route checked.request checked.recorder s in
      let kept = check_rate_limit-Kept out rd route checked.request checked.recorder s in
      let listed' = subst (λ (x : Router). Listed route x.routes) (sym kept.router) listed in
      let provided = Ready-Kept s after.0 kept ready route listed' in
      NotPanicked-if checked.passed _ (s, answered checked.recorder)
        (NotPanicked-if after.2 _ (after.0, answered after.1)
          (resolve-NotPanicked checked.request after.1 after.0 provided) tt)
        tt

module _ {F : Type 0} (out : Outside F) where
  pub begin-NotPanicked :
      (rd : Readings) (r : Request) (writer : ResponseWriter) (s : Server F)
      → Ready s
      → NotPanicked (begin out rd r writer s).1
  unfolding begin match
  begin-NotPanicked rd r writer s ready = elim (Option-cases (match s.router r)) [
    | inl missed ↦ rw (begin, missed) tt
    | inr (route, found) ↦
        rw (begin, found)
          (handle-NotPanicked out rd route r (new_status_recorder writer) (count_in out s) ready
            (match_in-Listed s.router.routes r route found))
  ]
