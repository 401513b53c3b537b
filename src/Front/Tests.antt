-- ===== src/Front/Tests.antt =====
-- Requests to the handler chain and to the metrics server, internal/server/server.go and
-- internal/metrics/prometheus.go.
use gogateway.Base.{◌≡◌, refl, false, some, [], ◌∷◌}
use gogateway.Base.Int.{pos}
use gogateway.Base.Text.{Text, text, text_eq, has_prefix, has_suffix}
use gogateway.Base.Maps.{lookup}
use gogateway.Http.{Header, Request, get, set, canonical}
use gogateway.Router.{match, match_route, match_path, contains}
use gogateway.Metrics.{new_metrics}
use gogateway.Metrics.Scrape.{rejected, apply_all}
use gogateway.RequestId.{request_id, generate_id, hex}
use gogateway.Server.Recorder.{ResponseWriter, send_code, send_data}
use gogateway.Server.Handler.{InFlight, ProxyRun, begin}
use gogateway.Server.Runs.{new_writer}
use gogateway.Front.Mux.{
  moved, clean_path, mux_handler, registered, by_mux, pattern_for, path_clean, segments,
  clean_segments, join_segments,
}
use gogateway.Front.Kept.{Carries}
use gogateway.Front.Entry.{NetHttp, EntryReadings, main_patterns, identified, serve_metrics}
use gogateway.Front.Carried.{id_for, Stops, identified-Carries}
use gogateway.Front.Scraped.{serve_metrics-answers}
use gogateway.Server.Samples.{naturals, out, start, users, rd, late, asking, writer}

abbrev net : NetHttp
net = record { escaped_path = λ u. u.path; mux_actions = λ answer r. send_code (pos 404) ∷ [] }

abbrev entry : EntryReadings
entry = record { random = 7 ∷ 255 ∷ []; timestamp = text "2024-01-01T00:00:00Z" }

-- A path is cleaned as path.Clean does it.
cleaned : clean_path (text "/a//b/../c/.") ≡ text "/a/c"
unfolding clean_path path_clean segments clean_segments join_segments has_prefix has_suffix text_eq
cleaned = refl

cleaned_with_slash : clean_path (text "a/../../b/") ≡ text "/b/"
unfolding clean_path path_clean segments clean_segments join_segments has_prefix has_suffix text_eq
cleaned_with_slash = refl

abbrev at_path : Text → Request
at_path p = record asking { url = record { scheme = []; host = []; path = p; raw_query = [] } }

health_path :
    mux_handler (λ u. u.path) main_patterns (at_path (text "/health")) ≡ registered (text "/health")
unfolding mux_handler clean_path path_clean segments clean_segments join_segments has_prefix
    has_suffix text_eq pattern_for
health_path = refl

redirected :
    mux_handler (λ u. u.path) main_patterns (at_path (text "//health"))
    ≡ by_mux (moved (text "/health"))
unfolding mux_handler clean_path path_clean segments clean_segments join_segments has_prefix
    has_suffix text_eq pattern_for
redirected = refl

abbrev passed : Request
passed = (request_id entry.random asking []).0

abbrev answer_header : Header
answer_header = (request_id entry.random asking []).1

abbrev sent_on : InFlight
sent_on = record {
  route = users;
  target = record { scheme = text "http"; host = text "u1"; path = []; raw_query = [] };
  request = passed;
  recorder = record {
    response_writer = record { header = answer_header; sent = [] };
    status_code = pos 0;
    wrote_header = false;
  };
}

abbrev answers : Request → ProxyRun
answers q = record { actions = send_code (pos 200) ∷ send_data (text "ok") ∷ []; aborted = false }

abbrev lost : Request
lost = at_path (text "/lost")

not_found :
    Stops
      (begin out rd
        (request_id entry.random lost []).0
        (new_writer (request_id entry.random lost []).1)
        start).1
unfolding begin match match_route match_path contains text_eq has_suffix has_prefix request_id
    generate_id hex get set canonical lookup
not_found = tt

identified-Carries_example :
    Carries
      (id_for entry.random lost)
      (identified out entry rd late answers lost (new_writer []) start).1
identified-Carries_example = identified-Carries out entry rd late answers lost [] start not_found

serve_metrics-answers_example :
    (w' : ResponseWriter) × (serve_metrics naturals
        (λ n. text "1")
        net
        entry
        (apply_all naturals (rejected (text "users") ∷ []) (new_metrics naturals))
        (at_path (text "/metrics"))
        writer
      ≡ some w')
serve_metrics-answers_example =
    serve_metrics-answers naturals (λ n. text "1") net (rejected (text "users") ∷ []) entry
      (at_path (text "/metrics")) writer
