-- ===== src/Balancer/RoundRobin/Fair.antt =====
-- How internal/balancer/roundrobin.go spreads the requests.
use gogateway.Base.{length, take, drop, take-drop-suc, take_all, length-drop, ◌++◌}
use gogateway.Base.{
  ℕ, zero, suc, ◌+◌, ◌-◌, ◌%◌, ◌≤◌, ◌<◌, ◌≡◌, refl, sym, ap, Option-cases, ◌∙◌, Option, none, some,
  List, [], ◌∷◌, length, get_elem?, get_elem?_total, inl, inr, arith,
}
use native.Mathlib.Nat.{add-zero, add_assoc, zero-add, suc-add, mod-lt}
use gogateway.Base.Int.{two64}
use gogateway.Balancer.RoundRobin.{RoundRobin, next}

-- `k` requests in a row.
unfoldable pub picks {ℓ} : {A : Type ℓ} → ℕ → List A → RoundRobin → Option (List A × RoundRobin)
picks zero endpoints rr = some ([], rr)
picks (suc k) endpoints rr = elim (next endpoints rr) [
  | none ↦ none
  | some (ep, rr') ↦ elim (picks k endpoints rr') [
    | none ↦ none
    | some (eps, last) ↦ some (ep ∷ eps, last)
  ]
]

at : ℕ → RoundRobin
at c = record { counter = c }

mod_suc : (c n r : ℕ) → c % n ≡ r → r + 1 < n → (c + 1) % n ≡ r + 1
mod_suc c n r e lt = grind arith

mod_wraps : (c n : ℕ) → 0 < n → (c + (n - c % n)) % n ≡ 0
mod_wraps c n lt = grind arith

pair_path {ℓ κ} :
    {A : Type ℓ} {B : Type κ} {a a' : A} {b b' : B}
    → a ≡ a'
    → b ≡ b'
    → ◌≡◌ {A = A × B} (a, b) (a', b')
pair_path p q = λ i. (p i, q i)

module _ {ℓ} {A : Type ℓ} (endpoints : List A) where
  next-at :
      (c r : ℕ)
      → c % length endpoints ≡ r
      → r < length endpoints
      → c + 1 < two64
      → (ep : A) × (get_elem? endpoints r ≡ some ep)
        × (next endpoints (at c) ≡ some (ep, at (c + 1)))
  unfolding next at
  next-at c r index lt few =
      let (ep, found) = get_elem?_total endpoints r lt in (ep, found, ground arith)

  picks-suc :
      (k : ℕ) (rr : RoundRobin) {ep : A} {l : List A} {rr' last : RoundRobin}
      → next endpoints rr ≡ some (ep, rr')
      → picks k endpoints rr' ≡ some (l, last)
      → picks (suc k) endpoints rr ≡ some (ep ∷ l, last)
  unfolding picks
  picks-suc k rr p q = ground arith

  picks_run :
      (k c r : ℕ)
      → (0 < k → c % length endpoints ≡ r)
      → r + k ≤ length endpoints
      → c + k < two64
      → picks k endpoints (at c) ≡ some (take k (drop r endpoints), at (c + k))
  unfolding picks
  picks_run zero c r index le few = rw add-zero
  picks_run (suc k) c r index le few =
      let (ep, found, stepped) = next-at c r (index (omega arith)) (omega arith) (omega arith) in
      let rest =
        picks_run k (c + 1) (suc r)
          (λ more. mod_suc c (length endpoints) r (index (omega arith)) (omega arith) ∙ omega arith)
          (omega arith) (omega arith) in
      picks-suc k (at c) stepped rest
      ∙ ap some (
          pair_path (sym (take-drop-suc r k endpoints found))
            (ap at (add_assoc c 1 k ∙ ap (λ (n : ℕ). c + n) (omega arith))))

  picks-add :
      (a b : ℕ) (rr : RoundRobin) {l m : List A} {rr' rr'' : RoundRobin}
      → picks a endpoints rr ≡ some (l, rr')
      → picks b endpoints rr' ≡ some (m, rr'')
      → picks (a + b) endpoints rr ≡ some (l ++ m, rr'')
  unfolding picks
  picks-add zero b rr p q = rw zero-add (ground arith)
  picks-add (suc a) b rr {l} {m} {rr'} p q = elim (Option-cases (next endpoints rr)) [
    | inl e ↦ ground arith
    | inr ((ep, rr₁), e) ↦ elim (Option-cases (picks a endpoints rr₁)) [
      | inl e₁ ↦ ground arith
      | inr ((l₁, rr₂), e₁) ↦
          let same : rr₂ ≡ rr' = ground arith in
          let cons : ep ∷ l₁ ≡ l = ground arith in
          let rest = picks-add a b rr₁ {l = l₁} {m = m} e₁ (rw same q) in
          rw (suc-add, ← cons) (picks-suc (a + b) rr e rest)
    ]
  ]

-- One round of requests, from any counter value: the endpoints come in their order, beginning at
-- the one whose turn it is, so that each gets as many requests as it stands in the list. There is
-- an endpoint, and the 64-bit counter does not wrap around during the round.
pub round-rotates {ℓ} :
    {A : Type ℓ} (endpoints : List A) (c : ℕ)
    → 0 < length endpoints
    → c + length endpoints < two64
    → picks (length endpoints) endpoints (record { counter = c })
      ≡ some (
        drop (c % length endpoints) endpoints ++ take (c % length endpoints) endpoints,
        record { counter = c + length endpoints },
      )
unfolding at
round-rotates {A} endpoints c some_there few =
    let n = length endpoints in
    let r = c % n in
    let lt : r < n = mod-lt c some_there in
    let first = picks_run endpoints (n - r) c r (λ _. refl) (omega arith) (omega arith) in
    let second =
      picks_run endpoints r (c + (n - r)) 0 (λ _. mod_wraps c n some_there) (omega arith)
        (omega arith) in
    let both = picks-add endpoints (n - r) r (at c) first second in
    let whole : take (n - r) (drop r endpoints) ≡ drop r endpoints =
      ap (λ (k : ℕ). take k (drop r endpoints)) (sym (length-drop r endpoints))
      ∙ take_all (drop r endpoints) in
    ap (λ (k : ℕ). picks k endpoints (at c)) (omega arith)
    ∙ both
    ∙ ap some (pair_path (ap (λ (l : List A). l ++ take r endpoints) whole) (ap at (omega arith)))
