-- ===== src/Front/Entry.antt =====
-- `ServeHTTP` of internal/server/server.go: the handler chain that `New` builds, for one request
-- that no other interrupts.
use gogateway.Base.{Option, none, some, List, [], ◌∷◌, if◌then◌else◌}
use gogateway.Base.Text.{Text, text, text_eq}
use gogateway.Http.{Url, Request, set}
use gogateway.Base.Int.{pos}
use gogateway.Metrics.{Floats, Metrics}
use gogateway.Metrics.Render.{render}
use gogateway.RequestId.{request_id}
use gogateway.Server.{Outside, Server, Readings, LateReadings}
use gogateway.Server.Recorder.{ResponseWriter, Action, change_header, send_code, send_data}
use gogateway.Server.Handler.{ProxyRun, serve_route}
use gogateway.Front.Mux.{MuxAnswer, by_mux, registered, mux_handler}
use gogateway.Front.Health.{health_handler, perform_all_raw}

-- net/http: r.URL.EscapedPath(), and what a mux writes for an answer of its own.
pub record NetHttp : Type 0 where
  pub escaped_path : Url → Text
  pub mux_actions : MuxAnswer → Request → List Action

-- The 16 random bytes of the request ID, and the time of a health response.
pub record EntryReadings : Type 0 where
  pub random : Text
  pub timestamp : Text

module _ {F : Type 0} (out : Outside F) where
  -- middleware.RequestID(http.HandlerFunc(s.serveRoute))
  unfoldable pub identified :
      EntryReadings
      → Readings
      → LateReadings
      → (Request → ProxyRun)
      → Request
      → ResponseWriter
      → Server F
      → Server F × ResponseWriter
  identified entry rd late proxy r w s =
      let (passed, header) = request_id entry.random r w.header in
      let (s', rec') = serve_route out rd late proxy passed (record w { header = header }) s in
      (s', rec'.response_writer)

abbrev pub main_patterns : List Text
main_patterns = text "/health" ∷ text "/" ∷ []

module _ {F : Type 0} (out : Outside F) (net : NetHttp) where
  unfoldable pub serve_http :
      EntryReadings
      → Readings
      → LateReadings
      → (Request → ProxyRun)
      → Request
      → ResponseWriter
      → Server F
      → Server F × ResponseWriter
  serve_http entry rd late proxy r w s =
      let identified_answer = identified out entry rd late proxy r w s in
      elim (mux_handler net.escaped_path main_patterns r) [
        | by_mux answer ↦ (s, perform_all_raw (net.mux_actions answer r) w)
        | registered pattern ↦
            if text_eq pattern (text "/health")
            then (s, perform_all_raw (health_handler r.method entry.timestamp) w)
            else identified_answer
      ]

-- The mux of the metrics server. A panic of `ServeHTTP` of the metrics, after its header is set, is
-- `none`.
module _ {F : Type 0} (floats : Floats F) (print : F → Text) (net : NetHttp) where
  unfoldable pub scrape : Metrics F → Option (List Action)
  scrape m = elim (render floats print m) [
    | none ↦ none
    | some body ↦ some (
        change_header (set (text "Content-Type") (text "text/plain; version=0.0.4; charset=utf-8"))
        ∷ send_code (pos 200)
        ∷ send_data body
        ∷ [])
  ]

  unfoldable pub serve_metrics :
      EntryReadings → Metrics F → Request → ResponseWriter → Option ResponseWriter
  serve_metrics entry m r w =
      elim (mux_handler net.escaped_path (text "/metrics" ∷ text "/health" ∷ []) r) [
        | by_mux answer ↦ some (perform_all_raw (net.mux_actions answer r) w)
        | registered pattern ↦
            if text_eq pattern (text "/health")
            then some (perform_all_raw (health_handler r.method entry.timestamp) w)
            else elim (scrape m) [ none ↦ none | some actions ↦ some (perform_all_raw actions w) ]
      ]
