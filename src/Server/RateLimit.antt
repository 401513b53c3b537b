-- ===== src/Server/RateLimit.antt =====
-- `checkRateLimit` of internal/server/server.go.
use gogateway.Base.{Bool, true, false, Option, none, some, List, [], ◌∷◌, if◌then◌else◌}
use gogateway.Base.Int.{ℤ, pos, ltb_ℤ, quot}
use gogateway.Base.Clock.{Duration, Time, add}
use gogateway.Base.Text.{text}
use gogateway.Base.Decimal.{itoa}
use gogateway.Config.{Route, RateLimitCfg}
use gogateway.Http.{get, set, Request}
use gogateway.Limiter.{Entries, Verdict}
use gogateway.Limiter.Client.{adapt_request, resolve_client_id}
use gogateway.Limiter.Redis.{limiter_allow}
use gogateway.Metrics.{record_rate_limit_rejection}
use gogateway.Server.{Outside, Server, Readings, unix}
use gogateway.Server.Recorder.{
  StatusRecorder, Action, change_header, perform, perform_all, write_json,
}

-- int(reset.Seconds()), at least 1. The quotient is exact; Go's is rounded in floating point, which
-- gives the same below 2 ^ 22 seconds.
unfoldable pub retry_after : Duration → ℤ
retry_after reset =
    let whole = quot reset 1000000000 in if ltb_ℤ whole (pos 1) then pos 1 else whole

unfoldable pub limit_headers : RateLimitCfg → Verdict → Time → List Action
limit_headers lim v now =
    change_header (set (text "X-RateLimit-Limit") (itoa lim.requests))
    ∷ change_header (set (text "X-RateLimit-Remaining") (itoa v.remaining))
    ∷ change_header (set (text "X-RateLimit-Reset") (itoa (unix (add now v.reset))))
    ∷ []

-- The limiter's answer for the client that is resolved of the request.
unfoldable pub ask_limiter : Readings → Route → Request → Entries → Entries × Verdict
ask_limiter rd route r entries =
    let client =
      resolve_client_id (adapt_request (λ name. get name r.header) r.remote_addr) route in
    limiter_allow rd.redis route client rd.limiter_now rd.limiter_later entries

module _ {F : Type 0} (out : Outside F) where
  -- The part after the limiter's answer.
  unfoldable pub report_limit :
      Readings
      → Route
      → RateLimitCfg
      → Verdict
      → StatusRecorder
      → Server F
      → Server F × StatusRecorder × Bool
  report_limit rd route lim v w s =
      let headed = perform_all (limit_headers lim v rd.reset_now) w in
      if v.allowed then (s, headed, true) else (
        record s { metrics = record_rate_limit_rejection out.floats route.id s.metrics },
        write_json (pos 429)
            (record { error = text "rate limit exceeded"; code = text "RATE_LIMITED" })
            (perform (change_header (set (text "Retry-After") (itoa (retry_after v.reset))))
              headed),
        false,
      )

  unfoldable pub limit_by :
      Option RateLimitCfg
      → Readings
      → Route
      → Request
      → StatusRecorder
      → Server F
      → Server F × StatusRecorder × Bool
  limit_by none rd route r w s = (s, w, true)
  limit_by (some lim) rd route r w s =
      let (entries, v) = ask_limiter rd route r s.rate_limiter in
      if lim.enabled
      then report_limit rd route lim v w (record s { rate_limiter = entries })
      else (s, w, true)

  unfoldable pub check_rate_limit :
      Readings → Route → Request → StatusRecorder → Server F → Server F × StatusRecorder × Bool
  check_rate_limit rd route r w s = limit_by route.rate_limit rd route r w s
