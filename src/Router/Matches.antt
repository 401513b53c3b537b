-- ===== src/Router/Matches.antt =====
-- Which route internal/router/router.go finds.
use gogateway.Base.{
  ◌≡◌, refl, ap, ◌↔◌, ◌⊎◌, true, Option, none, some, List, [], ◌∷◌, ◌++◌, All, Bool-cases, inl, inr,
  arith,
}
use gogateway.Base.Text.{Text, text_eq_iff}
use gogateway.Config.{Route}
use gogateway.Http.{Request}
use gogateway.Router.Paths.{MatchesPath, match_path_iff}
use gogateway.Router.{new, contains, match_route, match_in, match}

abbrev pub Member : Text → List Text → Type 0
Member item [] = ⊥
Member item (i ∷ items) = (i ≡ item) ⊎ Member item items

pub contains_iff :
    (items : List Text) (item : Text) → (contains items item ≡ true) ↔ Member item items
unfolding contains
contains_iff [] item = (λ e. cc, λ h. absurd h)
contains_iff (i ∷ items) item = ground (arith, text_eq_iff i item, contains_iff items item)

-- The route lists the method and the host of the request, where it lists any, and its pattern matches
-- the path.
abbrev pub Matches : Route → Request → Type 0
Matches route req =
    ((route.methods ≡ []) ⊎ Member req.method route.methods)
    × ((route.hosts ≡ []) ⊎ Member req.host route.hosts)
    × MatchesPath route.path req.url.path

match_route_iff :
    (route : Route) (req : Request) → (match_route route req ≡ true) ↔ Matches route req
unfolding match_route
match_route_iff route req =
    let (there, back) = match_path_iff route.path req.url.path in
    ground
      (arith, contains_iff route.methods req.method, contains_iff route.hosts req.host, there, back)

-- The route stands in the table and matches, and none before it does.
pub record IsFirst (routes : List Route) (req : Request) (route : Route) : Type 0 where
  pub before : List Route
  pub rest : List Route
  pub split : routes ≡ before ++ route ∷ rest
  pub none_before : All (λ r. ¬ Matches r req) before
  pub matches : Matches route req

-- The route that `Match` returns, or nil, is what the table says.
abbrev pub Chosen : List Route → Request → Option Route → Type 0
Chosen routes req none = All (λ r. ¬ Matches r req) routes
Chosen routes req (some route) = IsFirst routes req route

Chosen-cons :
    (r : Route) (rs : List Route) (req : Request) (o : Option Route)
    → ¬ Matches r req
    → Chosen rs req o
    → Chosen (r ∷ rs) req o
Chosen-cons r rs req none miss all = (miss, all)
Chosen-cons r rs req (some route) miss first = record {
  before = r ∷ first.before;
  rest = first.rest;
  split = ap (λ (l : List Route). r ∷ l) first.split;
  none_before = (miss, first.none_before);
  matches = first.matches;
}

match_in-Chosen : (routes : List Route) (req : Request) → Chosen routes req (match_in routes req)
unfolding match_in
match_in-Chosen [] req = tt
match_in-Chosen (r ∷ rs) req = elim (Bool-cases (match_route r req)) [
  | inl hit ↦ rw hit (record {
    before = [];
    rest = rs;
    split = refl;
    none_before = tt;
    matches = (match_route_iff r req).0 hit;
  })
  | inr miss ↦
      let fails : ¬ Matches r req = λ h. let hit = (match_route_iff r req).1 h in cc in
      rw miss (Chosen-cons r rs req (match_in rs req) fails (match_in-Chosen rs req))
]

-- `Match` returns the first route of the table that lists the method and the host of the request,
-- where it lists any, and whose pattern is a prefix of the path followed by "/*" or, if it does not
-- end in "/*", is the path; it returns nil only if there is no such route.
pub match-Chosen :
    (routes : List Route) (req : Request) → Chosen routes req (match (new routes) req)
unfolding match new
match-Chosen routes req = match_in-Chosen routes req
