-- ===== src/Router.antt =====
-- The route table, internal/router/router.go. A route is returned by pointer into the table, which
-- nothing changes afterwards, so it is its value here.
pub mod Paths
pub mod Matches
mod Tests
use gogateway.Base.{
  Bool, true, false, not, ◌&&◌, Option, none, some, List, [], ◌∷◌, is_nil, if◌then◌else◌,
}
use gogateway.Base.Text.{Text, text, text_eq, has_prefix, has_suffix, trim_suffix}
use gogateway.Config.{Route}
use gogateway.Http.{Request}

pub record Router : Type 0 where
  pub routes : List Route

unfoldable pub new : List Route → Router
new routes = record { routes = routes }

unfoldable pub contains : List Text → Text → Bool
contains [] item = false
contains (i ∷ items) item = let rest = contains items item in if text_eq i item then true else rest

abbrev pub wildcard : Text
wildcard = text "/*"

unfoldable pub match_path : Text → Text → Bool
match_path pattern path =
    if has_suffix pattern wildcard
    then (let prefix = trim_suffix pattern wildcard in
        if text_eq prefix [] then true else has_prefix path prefix)
    else text_eq pattern path

unfoldable pub match_route : Route → Request → Bool
match_route route req =
    if not (is_nil route.methods) && not (contains route.methods req.method)
    then false
    else if not (is_nil route.hosts) && not (contains route.hosts req.host)
    then false
    else match_path route.path req.url.path

-- The loop of `Match`.
unfoldable pub match_in : List Route → Request → Option Route
match_in [] req = none
match_in (r ∷ rs) req = let rest = match_in rs req in if match_route r req then some r else rest

unfoldable pub match : Router → Request → Option Route
unfolding match_in
match r req = match_in r.routes req
