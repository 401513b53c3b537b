-- ===== src/Config/Validate/Tests.antt =====
-- Configurations that internal/config/config.go accepts and rejects.
use gogateway.Base.{◌≡◌, refl, false, none, some, Option, [], ◌∷◌, is_nil, All}
use gogateway.Base.Int.{pos, ◌<ℤ◌}
use gogateway.Base.Text.{Text, text}
use gogateway.Config.{Config, Route}
use gogateway.Config.Validate.{
  id_required, check_upstreams, check_route, check_routes, with_defaults, validate, load, loaded,
  IsUsable, load-IsUsable,
}

abbrev users : Route
users = record {
  id = text "users";
  path = text "/users/*";
  methods = [];
  hosts = [];
  upstreams = record { url = text "http://u"; weight = pos 1 } ∷ [];
  auth = none;
  rate_limit = none;
  circuit_breaker = none;
  timeout = pos 0;
  retry = pos 0;
}

abbrev small : Config
small = record {
  gateway = record {
    listen = text ":8080";
    metrics_listen = [];
    shutdown_timeout = pos 0;
    log_level = [];
  };
  redis = record { addr = []; password = []; db = pos 0; pool_size = pos 0 };
  routes = users ∷ [];
}

abbrev small_loaded : Config
small_loaded = record small {
  gateway = record {
    listen = text ":8080";
    metrics_listen = [];
    shutdown_timeout = pos 15000000000;
    log_level = text "info";
  };
}

accepted : validate small ≡ (small_loaded, none)
unfolding validate check_routes check_route check_upstreams with_defaults
accepted = refl

second_route_unnamed :
    (validate (record small { routes = users ∷ record users { id = [] } ∷ [] })).1
    ≡ some (id_required 1)
unfolding validate check_routes check_route check_upstreams with_defaults
second_route_unnamed = refl

abbrev reads : Text → Option Config
reads file = some small

reads_small : load reads (some []) ≡ loaded small_loaded
unfolding load validate check_routes check_route check_upstreams with_defaults
reads_small = refl

load-IsUsable_example :
    (pos 0 <ℤ pos 15000000000)
    × (is_nil (text "info") ≡ false)
    × All IsUsable (users ∷ [])
    × (validate small_loaded ≡ (small_loaded, none))
load-IsUsable_example = load-IsUsable reads (some []) small_loaded reads_small
