-- ===== src/Program/Shutdown.antt =====
-- `Shutdown` of internal/server/server.go, with `ShutdownMetricsServer` of
-- internal/metrics/prometheus.go. Errors are texts.
use gogateway.Base.{◌≡◌, ◌⊎◌, true, Option, none, some, List, [], ◌∷◌, ◌++◌, if◌then◌else◌}
use gogateway.Base.Text.{Text, text}
use gogateway.Program.{Gateway}

-- What the server does to the servers of net/http.
pub data ServerCall : Type 0 where
  shut_down_metrics shut_down_main close_main : ServerCall

-- What `Shutdown` of an `http.Server` returns.
pub data ShutdownAnswer : Type 0 where
  drained deadline_exceeded : ShutdownAnswer
  failed : Text → ShutdownAnswer

-- What the calls of net/http return when the server stops.
pub record StopAnswers : Type 0 where
  pub metrics_shutdown : Option Text
  pub main_shutdown : ShutdownAnswer
  pub main_close : Option Text

unfoldable pub shutdown_metrics_server : Option Text → Option Text → List ServerCall × Option Text
shutdown_metrics_server none answer = ([], none)
shutdown_metrics_server (some addr) answer = (shut_down_metrics ∷ [], answer)

-- After the call of `Shutdown` of the main server.
unfoldable pub finish_shutdown : ShutdownAnswer → Option Text → List ServerCall × Option Text
finish_shutdown drained closing = (shut_down_main ∷ [], none)
finish_shutdown deadline_exceeded closing = (shut_down_main ∷ close_main ∷ [], closing)
finish_shutdown (failed e) closing = (shut_down_main ∷ [], some (text "server shutdown: " ++ e))

-- The server stopped: everything was drained, or it was closed by force after the deadline.
abbrev pub Stops : StopAnswers → Type 0
Stops answers =
    (answers.main_shutdown ≡ drained)
    ⊎ ((answers.main_shutdown ≡ deadline_exceeded) × (answers.main_close ≡ none))

module _ {F : Type 0} where
  -- The calls that were made and the error. Closing a closed channel panics, which is `none`. An
  -- error of the metrics server is only logged.
  unfoldable pub shutdown :
      StopAnswers → Gateway F → Option (Gateway F × List ServerCall × Option Text)
  shutdown answers g =
      let (metrics_calls, ignored) =
        shutdown_metrics_server g.metrics_server answers.metrics_shutdown in
      let (main_calls, err) = finish_shutdown answers.main_shutdown answers.main_close in
      if g.breaker_done
      then none
      else some (record g { breaker_done = true }, metrics_calls ++ main_calls, err)
