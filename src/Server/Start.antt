-- ===== src/Server/Start.antt =====
-- `New` of internal/server/server.go, as far as it makes what the request handler uses. The listeners
-- and the goroutines that it starts stand in Program.Create; the transport is not state of the
-- handler.
use gogateway.Base.{Option, none, some, List, [], ◌∷◌, is_nil, if◌then◌else◌}
use gogateway.Base.Clock.{Time}
use gogateway.Base.Text.{Text}
use gogateway.Base.Maps.{Map, insert}
use gogateway.Config.{Config, Route}
use gogateway.Http.{Url}
use gogateway.Router
use gogateway.Discovery.{new_static_registry}
use gogateway.Balancer.RoundRobin.{RoundRobin, new_round_robin}
use gogateway.KeyStore.{KeyStore, KeyFileEntry, FileRead, new_key_store, load_key_file}
use gogateway.Auth.Jwt.{new_jwt_auth}
use gogateway.Limiter.{new_memory_limiter}
use gogateway.BreakerStore.{new_breaker_store}
use gogateway.Metrics.{new_metrics}
use gogateway.Server.{Outside, Server}

-- What the program finds when it starts: GOGATEWAY_JWT_SECRET, 32 random bytes, the key file that
-- it reads, and the clock.
pub record Surroundings : Type 0 where
  pub jwt_secret : Text
  pub random : Text
  pub key_file : FileRead
  pub now : Time

-- The loop that makes the balancers.
unfoldable pub make_balancers : List Route → Map RoundRobin → Map RoundRobin
make_balancers [] balancers = balancers
make_balancers (route ∷ routes) balancers =
    make_balancers routes (insert route.id new_round_robin balancers)

abbrev pub or_empty_store : Option KeyStore → KeyStore
or_empty_store none = new_key_store
or_empty_store (some ks) = ks

module _ {F : Type 0} (out : Outside F) (parse_url : Text → Option Url)
    (unmarshal_keys : Text → Option (List KeyFileEntry)) where
  -- `none` is an error.
  unfoldable pub new : Config → Surroundings → Option (Server F)
  new cfg around = elim (new_static_registry parse_url cfg.routes) [
    | none ↦ none
    | some reg ↦ some (record {
      router = Router.new cfg.routes;
      registry = reg;
      balancers = make_balancers cfg.routes [];
      jwt_auth =
          new_jwt_auth
            (some (if is_nil around.jwt_secret then around.random else around.jwt_secret));
      key_store =
          or_empty_store (load_key_file out.sha256_hex unmarshal_keys around.key_file around.now);
      rate_limiter = new_memory_limiter;
      breaker_store = new_breaker_store;
      metrics = new_metrics out.floats;
    })
  ]
