-- ===== src/Server/Samples.antt =====
-- A server with one route and a request to it, internal/server/server.go. The floats are natural
-- numbers.
use gogateway.Base.{
  ℕ, ◌+◌, ◌-◌, ◌≡◌, refl, leb, ◌==◌, true, false, Option, none, some, List, [], ◌∷◌, arith,
}
use gogateway.Base.Int.{pos, pos_part}
use gogateway.Base.Text.{Text, text, text_eq, has_prefix, has_suffix}
use gogateway.Base.Maps.{lookup, insert}
use gogateway.Config.{Route, Config, CircuitBrkCfg}
use gogateway.Config.Validate.{IsUsable}
use gogateway.Http.{Url, Request}
use gogateway.Router
use gogateway.Router.{match, match_route, match_path, contains}
use gogateway.Discovery.{get_endpoints, new_static_registry, build, parse_all}
use gogateway.Balancer.RoundRobin.{next, new_round_robin}
use gogateway.KeyStore.{KeyFileEntry, not_exist, load_key_file, new_key_store}
use gogateway.Auth.Jwt.{new_jwt_auth}
use gogateway.Limiter.{new_memory_limiter}
use gogateway.Breaker.{allow, new_circuit_breaker}
use gogateway.BreakerStore.{breaker_key, get_or_create, new_breaker_store}
use gogateway.Metrics.{Floats, new_metrics}
use gogateway.Server.{Outside, Server, Readings, LateReadings}
use gogateway.Server.Recorder.{ResponseWriter, new_status_recorder}
use gogateway.Server.Authenticate.{authenticate}
use gogateway.Server.RateLimit.{check_rate_limit, limit_by}
use gogateway.Server.Handler.{
  InFlight, ProxyRun, forwarded, enabled_breaker, allow_at, admit, pick, resolve, handle, begin,
}
use gogateway.Server.Start.{Surroundings, make_balancers, new}
use gogateway.Server.Runs.{State, Reachable, started, continued, starts}

abbrev pub naturals : Floats ℕ
naturals = record {
  zero = 0;
  one = 1;
  literal = λ s. 0;
  plus = λ a b. a + b;
  minus = λ a b. a - b;
  at_most = leb;
  equals = λ a b. a == b;
  of_int = pos_part;
  seconds = λ d. 0;
}

abbrev pub out : Outside ℕ
out = record {
  floats = naturals;
  sha256_hex = λ s. s;
  parse_token = λ f s. none;
  claims_json = λ c. none;
  url_string = λ u. u.host;
}

abbrev pub parse_url : Text → Option Url
parse_url s = some (record { scheme = text "http"; host = s; path = []; raw_query = [] })

abbrev pub unmarshal_keys : Text → Option (List KeyFileEntry)
unmarshal_keys s = some []

abbrev pub breakers : CircuitBrkCfg
breakers = record {
  enabled = true;
  threshold = pos 1;
  timeout = pos 1000;
  half_open_max_reqs = pos 1;
}

abbrev pub users : Route
users = record {
  id = text "users";
  path = text "/users";
  methods = [];
  hosts = [];
  upstreams = record { url = text "u1"; weight = pos 1 } ∷ [];
  auth = none;
  rate_limit = none;
  circuit_breaker = some breakers;
  timeout = pos 0;
  retry = pos 0;
}

abbrev pub cfg : Config
cfg = record {
  gateway = record {
    listen = text ":8080";
    metrics_listen = [];
    shutdown_timeout = pos 1;
    log_level = text "info";
  };
  redis = record { addr = []; password = []; db = pos 0; pool_size = pos 0 };
  routes = users ∷ [];
}

abbrev pub around : Surroundings
around = record { jwt_secret = []; random = text "r"; key_file = not_exist; now = pos 0 }

abbrev pub start : Server ℕ
start = record {
  router = record { routes = users ∷ [] };
  registry = record {
    entries =
        (
          text "users",
          record { scheme = text "http"; host = text "u1"; path = []; raw_query = [] } ∷ [],
        )
        ∷ [];
  };
  balancers = (text "users", record { counter = 0 }) ∷ [];
  jwt_auth = record { hmac_secret = some (text "r"); rsa_public_keys = some []; key_func = none };
  key_store = record { keys = [] };
  rate_limiter = [];
  breaker_store = record { breakers = [] };
  metrics = new_metrics naturals;
}

pub made : new out parse_url unmarshal_keys cfg around ≡ some start
unfolding new new_static_registry build parse_all insert make_balancers new_round_robin new_jwt_auth
    load_key_file new_key_store new_memory_limiter new_breaker_store Router.new
made = refl

pub users-IsUsable : IsUsable users
users-IsUsable = record {
  has_id = refl;
  has_path = refl;
  has_upstreams = refl;
  upstreams_have_urls = (refl, tt);
}

abbrev pub rd : Readings
rd = record {
  redis = none;
  limiter_now = pos 0;
  limiter_later = pos 0;
  reset_now = pos 0;
  breaker_now = pos 0;
}

abbrev pub late : LateReadings
late = record { failure_now = pos 1; failure_later = pos 2; elapsed = pos 3 }

abbrev pub asking : Request
asking = record {
  method = text "GET";
  host = text "h";
  url = record { scheme = []; host = []; path = text "/users"; raw_query = [] };
  header = [];
  remote_addr = text "1.2.3.4:5";
}

abbrev pub writer : ResponseWriter
writer = record { header = []; sent = [] }

abbrev pub flying : InFlight
flying = record {
  route = users;
  target = record { scheme = text "http"; host = text "u1"; path = []; raw_query = [] };
  request = asking;
  recorder = record { response_writer = writer; status_code = pos 0; wrote_header = false };
}

pub begun : (begin out rd asking writer start).1 ≡ forwarded flying
unfolding begin match match_route match_path contains text_eq has_suffix has_prefix handle
    authenticate check_rate_limit limit_by resolve get_endpoints pick lookup next admit
    enabled_breaker get_or_create breaker_key allow_at insert allow new_circuit_breaker
    new_status_recorder
begun = refl

abbrev pub after_begin : Server ℕ
after_begin = (begin out rd asking writer start).0

abbrev pub one_flying : State ℕ
one_flying = record { server = after_begin; in_flight = flying ∷ [] }

-- Whatever the upstreams do.
abbrev pub Anything : ProxyRun → Type 0
Anything run = Unit

abbrev pub reached : (Upstreams : ProxyRun → Type 0) → Reachable out Upstreams start one_flying
reached Upstreams = continued started (omega arith) (starts rd asking [] flying starting)
  where
    starting : begin out rd asking writer start ≡ (after_begin, forwarded flying)
    starting = λ i. (after_begin, begun i)
