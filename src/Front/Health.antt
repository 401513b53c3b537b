-- ===== src/Front/Health.antt =====
-- `HealthHandler` of internal/metrics/prometheus.go. `timestamp` is the time as it is formatted.
use gogateway.Base.{List, [], ◌∷◌, ◌++◌, if◌then◌else◌}
use gogateway.Base.Int.{pos}
use gogateway.Base.Text.{Text, text, text_eq}
use gogateway.Http.{set}
use gogateway.Server.Recorder.{
  ResponseWriter, code_sent, data_sent, send, Action, change_header, send_code, send_data, quoted,
}

pub record HealthResponse : Type 0 where
  pub status : Text
  pub timestamp : Text

-- json.NewEncoder(w).Encode(v), for texts without characters to escape.
unfoldable pub encode_health : HealthResponse → Text
encode_health health =
    (b'{' ∷ quoted (text "status"))
    ++ (b':' ∷ quoted health.status)
    ++ (b',' ∷ quoted (text "timestamp"))
    ++ (b':' ∷ quoted health.timestamp)
    ++ b'}' ∷ 10 ∷ []

unfoldable pub health_handler : Text → Text → List Action
health_handler method timestamp =
    if text_eq method (text "GET")
    then change_header (set (text "Content-Type") (text "application/json; charset=utf-8"))
      ∷ send_code (pos 200)
      ∷ send_data (encode_health (record { status = text "ok"; timestamp = timestamp }))
      ∷ []
    else send_code (pos 405) ∷ []

-- An action on the writer of net/http itself.
unfoldable pub perform_raw : Action → ResponseWriter → ResponseWriter
perform_raw (change_header f) w = record w { header = f w.header }
perform_raw (send_code code) w = send (code_sent code w.header) w
perform_raw (send_data data') w = send (data_sent data') w

unfoldable pub perform_all_raw : List Action → ResponseWriter → ResponseWriter
perform_all_raw [] w = w
perform_all_raw (a ∷ actions) w = perform_all_raw actions (perform_raw a w)
