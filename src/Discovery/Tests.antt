-- ===== src/Discovery/Tests.antt =====
-- A registry of two routes.
use gogateway.Base.{◌≡◌, refl, none, some, Option, [], ◌∷◌}
use gogateway.Base.Int.{pos}
use gogateway.Base.Text.{Text, text, text_eq}
use gogateway.Base.Maps.{insert, lookup}
use gogateway.Config.{Route}
use gogateway.Config.Validate.{IsUsable}
use gogateway.Http.{Url}
use gogateway.Discovery.{StaticRegistry, get_endpoints, parse_all, build, new_static_registry}

abbrev parse : Text → Option Url
parse s = some (record { scheme = []; host = s; path = []; raw_query = [] })

abbrev users : Route
users = record {
  id = text "users";
  path = text "/users/*";
  methods = [];
  hosts = [];
  upstreams =
      record { url = text "u1"; weight = pos 1 } ∷ record { url = text "u2"; weight = pos 1 } ∷ [];
  auth = none;
  rate_limit = none;
  circuit_breaker = none;
  timeout = pos 0;
  retry = pos 0;
}

abbrev registry : StaticRegistry
registry = record {
  entries =
      (
        text "users",
        record { scheme = []; host = text "u1"; path = []; raw_query = [] }
            ∷ record { scheme = []; host = text "u2"; path = []; raw_query = [] }
            ∷ [],
      )
      ∷ [];
}

users-IsUsable : IsUsable users
users-IsUsable = record {
  has_id = refl;
  has_path = refl;
  has_upstreams = refl;
  upstreams_have_urls = (refl, (refl, tt));
}

made : new_static_registry parse (users ∷ []) ≡ some registry
unfolding new_static_registry build parse_all insert
made = refl

unknown_route : get_endpoints (text "orders") registry ≡ none
unfolding get_endpoints lookup text_eq
unknown_route = refl
