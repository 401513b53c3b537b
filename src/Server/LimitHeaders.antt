-- ===== src/Server/LimitHeaders.antt =====
-- What a client reads in the rate-limit headers of internal/server/server.go.
use gogateway.Base.{ℕ, leb, ◌/◌, if◌then◌else◌}
use gogateway.Base.Text.{Text, text}
use gogateway.Http.{Header, set}
use gogateway.Server.{Server}

-- The headers of the limiter, then the one that tells to wait, then the type of the body.
abbrev limited : Text → Text → Text → Header → Header
limited limit left end h =
    set (text "X-RateLimit-Reset") end
      (set (text "X-RateLimit-Remaining") left (set (text "X-RateLimit-Limit") limit h))

abbrev refused : Text → Header → Header
refused wait h =
    set (text "Content-Type") (text "application/json; charset=utf-8")
      (set (text "Retry-After") wait h)

-- The seconds to wait, at least one.
abbrev pub waits : ℕ → ℕ
waits reset = if leb 1 (reset / 1000000000) then reset / 1000000000 else 1
