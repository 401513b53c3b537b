-- ===== src/Discovery.antt =====
-- The static service registry, internal/discovery/discovery.go. `parse_url` is `url.Parse`.
mod Tests
use gogateway.Base.{
  ◌≡◌, ◌⊎◌, refl, sym, ap, ◌∙◌, Bool, true, false, Option, none, some, List, [], ◌∷◌, is_nil, All,
  if◌then◌else◌, Bool-cases, Option-cases, inl, inr, arith,
}
use gogateway.Base.Text.{Text, text_eq, text_eq_iff}
use gogateway.Base.Maps.{Map, lookup, insert, lookup-insert}
use gogateway.Config.{Route, Upstream}
use gogateway.Config.Validate.{IsUsable}
use gogateway.Http.{Url}

pub record StaticRegistry : Type 0 where
  pub entries : Map (List Url)

-- `none` is an error.
unfoldable pub get_endpoints : Text → StaticRegistry → Option (List Url)
get_endpoints route_id s = lookup route_id s.entries

-- The route stands in the list.
abbrev pub Listed : Route → List Route → Type 0
Listed r [] = ⊥
Listed r (route ∷ routes) = (route ≡ r) ⊎ Listed r routes

module _ (parse_url : Text → Option Url) where
  -- The inner loop, over the upstreams of a route.
  unfoldable pub parse_all : List Upstream → Option (List Url)
  parse_all [] = some []
  parse_all (u ∷ us) = elim (parse_url u.url) [
    | none ↦ none
    | some parsed ↦ elim (parse_all us) [ none ↦ none | some eps ↦ some (parsed ∷ eps) ]
  ]

  unfoldable pub build : List Route → Map (List Url) → Option (Map (List Url))
  build [] entries = some entries
  build (route ∷ routes) entries = elim (parse_all route.upstreams) [
    | none ↦ none
    | some eps ↦ build routes (insert route.id eps entries)
  ]

  unfoldable pub new_static_registry : List Route → Option StaticRegistry
  new_static_registry routes = elim (build routes []) [
    | none ↦ none
    | some entries ↦ some (record { entries = entries })
  ]

  -- Every route of the list has endpoints.
  abbrev pub Served : Map (List Url) → Route → Type 0
  Served entries r = (ep : Url) × (eps : List Url) × (lookup r.id entries ≡ some (ep ∷ eps))

  parse_all_nonempty :
      (us : List Upstream) (eps : List Url)
      → is_nil us ≡ false
      → parse_all us ≡ some eps
      → (ep : Url) × (rest : List Url) × (eps ≡ ep ∷ rest)
  unfolding parse_all
  parse_all_nonempty [] eps h e = ground arith
  parse_all_nonempty (u ∷ us) eps h e = elim (Option-cases (parse_url u.url)) [
    | inl bad ↦ ground arith
    | inr (ep, good) ↦ elim (Option-cases (parse_all us)) [
      | inl bad ↦ ground arith
      | inr (rest, all) ↦ (ep, rest, ground arith)
    ]
  ]

  Served-insert :
      (route r : Route) (eps : List Url) (entries : Map (List Url)) (ep : Url) (rest : List Url)
      → eps ≡ ep ∷ rest
      → (Served entries r ⊎ (route.id ≡ r.id))
      → Served (insert route.id eps entries) r
  Served-insert route r eps entries ep rest split there =
      elim (Bool-cases (text_eq route.id r.id)) [
        | inl same ↦ (ep, rest, rw (lookup-insert, same) (ap some split))
        | inr differ ↦ elim there [
          | inl (ep', rest', found) ↦ (ep', rest', rw (lookup-insert, differ) found)
          | inr same ↦ ground (arith, text_eq_iff route.id r.id)
        ]
      ]

  -- What is served stays served, and what is built is served.
  build-Served :
      (routes : List Route) (entries built : Map (List Url)) (r : Route)
      → build routes entries ≡ some built
      → All IsUsable routes
      → Served entries r ⊎ Listed r routes
      → Served built r
  unfolding build
  build-Served [] entries built r e ok (inl (ep, eps, found)) =
      let same : entries ≡ built = ground arith in (ep, eps, ap (lookup r.id) (sym same) ∙ found)
  build-Served [] entries built r e ok (inr none_listed) = absurd none_listed
  build-Served (route ∷ routes) entries built r e ok there =
      elim (Option-cases (parse_all route.upstreams)) [
        | inl bad ↦ ground arith
        | inr (eps, good) ↦
            let (ep, rest, split) =
              parse_all_nonempty route.upstreams eps (ok.0).has_upstreams good in
            let built_rest : build routes (insert route.id eps entries) ≡ some built =
              ground arith in
            build-Served routes (insert route.id eps entries) built r built_rest ok.1 (elim there [
              | inl found ↦ inl (Served-insert route r eps entries ep rest split (inl found))
              | inr (inl same) ↦ inl (
                  Served-insert route r eps entries ep rest split
                    (inr (ap (λ (x : Route). x.id) same)))
              | inr (inr listed) ↦ inr listed
            ])
      ]

  -- In the registry that is built of usable routes every route of the table has an endpoint, also
  -- when several routes have the same ID.
  pub get_endpoints-nonempty :
      (routes : List Route) (s : StaticRegistry) (r : Route)
      → All IsUsable routes
      → Listed r routes
      → new_static_registry routes ≡ some s
      → (ep : Url) × (eps : List Url) × (get_endpoints r.id s ≡ some (ep ∷ eps))
  unfolding new_static_registry get_endpoints
  get_endpoints-nonempty routes s r usable listed made = elim (Option-cases (build routes [])) [
    | inl failed ↦ ground arith
    | inr (entries, built) ↦
        let (ep, eps, found) = build-Served routes [] entries r built usable (inr listed) in
        let same : entries ≡ s.entries = ground arith in
        (ep, eps, ap (lookup r.id) (sym same) ∙ found)
  ]
