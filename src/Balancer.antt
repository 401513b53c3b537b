-- ===== src/Balancer.antt =====
-- Load balancing, internal/balancer: round-robin and least connections. `Next` and `Done` hold the
-- balancer's mutex, so each is one function on its state. `none` is a Go panic. An endpoint is a
-- pointer to a URL; `String()` of it, which the net/url package implements, is a parameter.
pub mod RoundRobin
pub mod LeastConnections
mod Tests
