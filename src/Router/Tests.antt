-- ===== src/Router/Tests.antt =====
-- Runs of internal/router/router.go.
use gogateway.Base.{◌≡◌, refl, true, none, some, [], ◌∷◌}
use gogateway.Base.Int.{pos}
use gogateway.Base.Text.{
  Text, text, text_eq, has_prefix, has_suffix, trim_suffix, trim_prefix, drop_prefix,
}
use gogateway.Config.{Route}
use gogateway.Http.{Request}
use gogateway.Router.{new, contains, match_path, match_route, match}
use gogateway.Router.Matches.{Chosen, match-Chosen}

abbrev users : Route
users = record {
  id = text "users";
  path = text "/users/*";
  methods = text "GET" ∷ [];
  hosts = [];
  upstreams = [];
  auth = none;
  rate_limit = none;
  circuit_breaker = none;
  timeout = pos 0;
  retry = pos 0;
}

abbrev anything : Route
anything = record users { id = text "any"; path = text "/*"; methods = [] }

abbrev asking : Text → Request
asking path = record {
  method = text "GET";
  host = text "h";
  url = record { scheme = []; host = []; path = path; raw_query = [] };
  header = [];
  remote_addr = [];
}

first_wins : match (new (users ∷ anything ∷ [])) (asking (text "/users/1")) ≡ some users
unfolding match new match_route match_path contains text_eq has_prefix has_suffix trim_suffix
    trim_prefix drop_prefix
first_wins = refl

no_slash_needed : match_path (text "/users/*") (text "/usersx") ≡ true
unfolding match_path text_eq has_prefix has_suffix trim_suffix trim_prefix drop_prefix
no_slash_needed = refl

match-Chosen_example :
    Chosen
      (users ∷ anything ∷ [])
      (asking (text "/x"))
      (match (new (users ∷ anything ∷ [])) (asking (text "/x")))
match-Chosen_example = match-Chosen (users ∷ anything ∷ []) (asking (text "/x"))
