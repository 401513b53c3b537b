-- ===== src/Lib.antt =====
-- GoGateway, an API gateway and reverse proxy.
--
-- A request passes through the parts of the gateway in this order: the router finds its route,
-- authentication checks a JWT or an API key, the rate limiter counts it, a balancer picks an
-- upstream of the route, the circuit breaker of that upstream admits it or not, and the reverse
-- proxy forwards it; the outcome is told to the breaker and to the metrics.
--
-- - Base: library names, tests, lists; Base.Int: signed integers and Go's wrapping `int64`;
--   Base.Clock: `time.Time` and `time.Duration`; Base.Text: strings as bytes; Base.Maps: Go maps
--   with string keys.
-- - Config: the structs of internal/config/config.go; Config.Validate: `Load` and `validate`.
-- - Http: header maps, URLs and requests of net/http, as far as the gateway reads them.
-- - Breaker: `CircuitBreaker` of internal/middleware/circuitbreaker.go. Breaker.History runs a list
--   of calls; Breaker.Trip, Invariant and Outage prove.
-- - BreakerStore: `BreakerStore` of the same file; `GetOrCreate` with the stores that it sees under
--   its two locks.
-- - Limiter: `memoryLimiter` of internal/middleware/ratelimit.go; Limiter.Redis: `CheckRateLimit`
--   of internal/store/redis.go with its Lua script over abstract Redis commands, and
--   `RateLimiter.Allow`; Limiter.Client: `ResolveClientID`.
-- - Balancer: `RoundRobin` and `LeastConnections` of internal/balancer.
-- - Router: `Match` of internal/router/router.go.
-- - Discovery: `StaticRegistry` of internal/discovery/discovery.go.
-- - KeyStore: the API keys of internal/store/store.go, with `LoadKeyFile`.
-- - Auth: internal/middleware/apikey.go (Auth.ApiKeys) and internal/middleware/jwt.go (Auth.Jwt).
-- - RequestId: internal/middleware/requestid.go.
-- - Metrics: the collectors of internal/metrics/prometheus.go and the recording of events;
--   Metrics.Render: the text format, where an index out of range is `none`; Metrics.Total, Scrape,
--   Output, Labels, Counts, Histograms, Sorted and Printed prove.
-- - Server: internal/server/server.go. Server.Start is `New`; Server.Handler is `serveRoute`, with
--   Server.Authenticate, Server.RateLimit, Server.Recorder and Server.Director for the functions
--   that it calls. `begin` is `serveRoute` up to the call of the reverse proxy, `complete` what
--   follows it, `settle` what is deferred; a panic is a value, `panicked`. Server.Runs lets
--   requests interleave: a request that is forwarded is in flight until the proxy returns. There
--   the checks of a request are one step, although the code lets go of its locks between them and
--   waits for Redis; Server.Phases cuts `serveRoute` at these places. Server.Export is the adapter
--   of the breakers' states, Server.Resolved the ways through the last checks. Server.Kept, Safety,
--   Panics, Active, Admits, Gate, Outcome, Answers, Refusals, Flights, Breakers, Available, Valid,
--   Exported, LimitHeaders, Asked, Throttled, Calls, Window, Told, History, Pools, Opened, Series,
--   Recorded and Pieces prove.
-- - Front: what `New` puts before `serveRoute`, and the metrics server. Front.Mux is the `ServeMux`
--   of net/http, Front.Health the health handler of internal/metrics/prometheus.go, Front.Entry
--   `ServeHTTP`. Front.Kept, Answered, Admitted, Carried and Scraped prove.
-- - Program: cmd/gogateway/main.go. Program.Create is the rest of `New` with `NewRedisClient` of
--   internal/store/redis.go, Program.Shutdown is `Shutdown`, Program.Loop `RunBreakerStateLoop` and
--   the clean-up goroutine, Program.Main `main` and `Init` of internal/logger/logger.go, as a
--   function of what the process finds; Program.Exit proves.
--
-- A Go `int`, `int64` or `time.Duration` is a signed integer, and where the code adds one or
-- multiplies the sum is wrapped to 64 bits as in Go; a `uint64` counter is a natural number modulo
-- 2 ^ 64. An instant is an unbounded number of nanoseconds, and a difference of instants saturates
-- as `Time.Sub` does. Every reading of the clock is an argument. Each method that holds a mutex
-- throughout is one function on the state, so an interleaving of goroutines is a list of calls.
-- All recursions are structural, on lists or on a number of requests; only the decimal digits of a
-- number have a fuel, 20, since a 64-bit number has at most 20 digits.
--
-- Parameters stand for the YAML library, the token library (its key function and what it does with
-- it), the digest and the encodings of the Go library, `url.Parse`, Redis, the random bytes, the
-- answers of net/http when servers start and stop, the reverse proxy, which is a list of actions on
-- the response, and the floating-point numbers of the metrics. Not modelled are the transport, flags
-- and signals, the closing of the Redis client, which nothing calls, and log messages. The order in
-- which Go iterates over a map is the order of an association list, and no result depends on it.
pub mod Base
pub mod Config
pub mod Http
pub mod Breaker
pub mod BreakerStore
pub mod Limiter
pub mod Balancer
pub mod Router
pub mod Discovery
pub mod KeyStore
pub mod Auth
pub mod Metrics
pub mod Server
pub mod Front
pub mod Program
pub mod RequestId
