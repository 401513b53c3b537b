-- ===== src/Program/Create.antt =====
-- The rest of `New` of internal/server/server.go: the client of internal/store/redis.go and the
-- metrics server of internal/metrics/prometheus.go.
use gogateway.Base.{Bool, true, false, Option, none, some, List, is_nil, if◌then◌else◌}
use gogateway.Base.Text.{Text}
use gogateway.Config.{Config}
use gogateway.Http.{Url}
use gogateway.KeyStore.{KeyFileEntry}
use gogateway.Server.{Outside}
use gogateway.Server.Start.{Surroundings, new}
use gogateway.Program.{Gateway}

-- The results of `NewRedisClient`: a nil client without an error, an error, a client.
pub data RedisClient : Type 0 where
  no_client unreachable connected : RedisClient

-- `answers` tells whether Redis answers the ping.
unfoldable pub new_redis_client : Text → Bool → RedisClient
new_redis_client addr answers =
    if is_nil addr then no_client else if answers then connected else unreachable

-- The client that the rate limiter gets is nil if there is none.
unfoldable pub redis_setup : Config → Bool → Bool
redis_setup cfg answers =
    if is_nil cfg.redis.addr then false else elim (new_redis_client cfg.redis.addr answers) [
      | no_client ↦ false
      | unreachable ↦ false
      | connected ↦ true
    ]

-- The server and the error, both of which are nil if there is no address.
unfoldable pub start_metrics_server : Text → Option Text × Option Text
start_metrics_server addr = if is_nil addr then (none, none) else (some addr, none)

module _ {F : Type 0} (out : Outside F) (parse_url : Text → Option Url)
    (unmarshal_keys : Text → Option (List KeyFileEntry)) where
  -- `New`; `none` is an error.
  unfoldable pub create : Config → Surroundings → Bool → Option (Gateway F)
  create cfg around redis_answers = elim (new out parse_url unmarshal_keys cfg around) [
    | none ↦ none
    | some server ↦
        let (metrics_server, err) = start_metrics_server cfg.gateway.metrics_listen in
        elim err [
          | some e ↦ none
          | none ↦ some (record {
            server = server;
            redis = redis_setup cfg redis_answers;
            listen = cfg.gateway.listen;
            metrics_server = metrics_server;
            breaker_done = false;
          })
        ]
  ]
