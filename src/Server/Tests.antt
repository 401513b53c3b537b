-- ===== src/Server/Tests.antt =====
-- Requests to a server with one route, internal/server/server.go. The floats are natural numbers.
use mathlib.Core.List.{reverse}
use gogateway.Base.{
  ℕ, ◌≡◌, ◌≢◌, ◌⊎◌, ◌↔◌, refl, true, false, Option, none, some, [], ◌∷◌, ◌++◌, arith, if◌then◌else◌,
}
use gogateway.Base.Int.{pos}
use gogateway.Base.Text.{Text, text, text_eq, has_prefix, has_suffix}
use gogateway.Base.Maps.{lookup}
use gogateway.Config.{Route, AuthConfig}
use gogateway.Http.{Request}
use gogateway.Router.{match, match_route, match_path, contains}
use gogateway.BreakerStore.{breaker_key}
use gogateway.Metrics.{new_metrics}
use gogateway.Server.Recorder.{
  StatusRecorder, new_status_recorder, status, write_json, perform_all, send_code, code_first_sent,
  status-perform_all,
}
use gogateway.Server.Director.{
  slash, single_joining_slash, AllSlashes, Unslashed, single_joining_slash-eq,
}
use gogateway.Server.Authenticate.{authenticate, MayPass, authenticate-passed_iff}
use gogateway.Server.Handler.{
  ProxyRun, panicked, enabled_breaker, begin, complete, answered, count_in,
}
use gogateway.Server.{Server}
use gogateway.Server.Runs.{new_writer}
use gogateway.Server.Panics.{begin-ne-panicked}
use gogateway.Server.Phases.{
  Phase, Phases, arrived, advance, Moves, started, continued, arrives, advances,
}
use gogateway.Server.Active.{float_of, CountsExactly, active_connections-eq}
use gogateway.Server.Admits.{LimiterAllows, BreakerAdmits, breaker_of}
use gogateway.Server.Gate.{begin-forwarded}
use gogateway.Server.Refusals.{Refused, begin-answered}
use gogateway.Server.Outcome.{after_response, lookup-complete}
use gogateway.Server.Samples.{
  naturals, out, parse_url, unmarshal_keys, breakers, users, cfg, around, start, rd, late, asking,
  writer, flying, after_begin, one_flying, Anything, made, users-IsUsable, begun, reached,
}

begin-ne-panicked_example :
    (begin out rd asking writer after_begin).1
    ≢ panicked (record { response_writer = writer; status_code = pos 0; wrote_header = false })
begin-ne-panicked_example =
    begin-ne-panicked out parse_url unmarshal_keys cfg around Anything start one_flying
      (users-IsUsable, tt) made (reached Anything) rd asking writer
      (record { response_writer = writer; status_code = pos 0; wrote_header = false })

naturals-CountsExactly : CountsExactly naturals
naturals-CountsExactly = record { undoes = λ n lt. omega arith }

abbrev just_arrived : Phase
just_arrived = arrived asking (new_status_recorder (new_writer []))

abbrev silent : ProxyRun
silent = record { actions = []; aborted = false }

abbrev both_counted : Server ℕ
both_counted = count_in out (count_in out start)

-- Of two requests one is past its authentication.
abbrev two_served : Phases ℕ
two_served = record {
  server = (advance out rd late silent just_arrived both_counted).0;
  requests = just_arrived ∷ (advance out rd late silent just_arrived both_counted).1 ∷ [];
}

abbrev both_arrived : Moves out start two_served
both_arrived =
    continued
      (continued (continued started (omega arith) (arrives asking [])) (omega arith)
        (arrives asking []))
      (omega arith) (advances (just_arrived ∷ []) [] just_arrived rd late silent)

active_connections-eq_example :
    two_served.server.metrics.active_connections ≡ record { value = float_of naturals 2 }
unfolding new_metrics advance match match_route match_path contains text_eq has_suffix has_prefix
    authenticate
active_connections-eq_example =
    active_connections-eq out naturals-CountsExactly start two_served refl both_arrived

begin-forwarded_example :
    (match start.router asking ≡ some users)
    × ((◌≡◌ {A = Option AuthConfig} none none)
        ⊎ ((auth : AuthConfig) × (◌≡◌ {A = Option AuthConfig} none (some auth))
            × MayPass out start auth []))
    × LimiterAllows out rd start flying
    × BreakerAdmits out rd start flying
begin-forwarded_example = begin-forwarded out rd asking writer start flying begun

abbrev failing : ProxyRun
failing = record { actions = send_code (pos 502) ∷ []; aborted = false }

abbrev broken_off : ProxyRun
broken_off = record { actions = send_code (pos 200) ∷ []; aborted = true }

lookup-complete_example :
    lookup (text "users:u1") (complete out late flying failing start).0.breaker_store.breakers ≡ (
      if text_eq (breaker_key (text "users") (text "u1")) (text "users:u1")
      then some (
          after_response late
            (pos 502)
            (breaker_of start.breaker_store (text "users") (text "u1") breakers))
      else lookup (text "users:u1") start.breaker_store.breakers)
unfolding enabled_breaker
lookup-complete_example =
    lookup-complete out flying late failing start breakers (text "users:u1") refl refl
      (refl, refl, refl)

-- An informational code hides the failure that follows it.
early_hints :
    status
      (perform_all (send_code (pos 103) ∷ send_code (pos 502) ∷ []) (new_status_recorder writer))
    ≡ pos 103
early_hints = (status-perform_all (send_code (pos 103) ∷ send_code (pos 502) ∷ []) []).0

status-perform_all_example :
    let r =
      perform_all
        (send_code (pos 103) ∷ send_code (pos 502) ∷ [])
        (new_status_recorder (record { header = []; sent = [] })) in
    (status r ≡ pos 103) × (code_first_sent r.response_writer.sent ≡ pos 103)
status-perform_all_example = status-perform_all (send_code (pos 103) ∷ send_code (pos 502) ∷ []) []

single_joining_slash-eq_example :
    (base : Text) × (rest : Text) × (tail : Text) × (head : Text) × (text "/api//" ≡ base ++ tail)
    × (text "//users" ≡ head ++ rest)
    × AllSlashes tail
    × AllSlashes head
    × Unslashed (reverse base)
    × Unslashed rest
    × (single_joining_slash (text "/api//") (text "//users") ≡ base ++ slash ∷ rest)
single_joining_slash-eq_example = single_joining_slash-eq (text "/api//") (text "//users")

abbrev fresh : StatusRecorder
fresh = record { response_writer = writer; status_code = pos 0; wrote_header = false }

authenticate-passed_iff_example : ((authenticate out start users asking fresh).passed ≡ true) ↔ (
    (◌≡◌ {A = Option AuthConfig} none none)
    ⊎ ((auth : AuthConfig) × (◌≡◌ {A = Option AuthConfig} none (some auth))
        × MayPass out start auth []))
authenticate-passed_iff_example = authenticate-passed_iff out start users asking fresh

abbrev lost : Request
lost = record asking {
  url = record { scheme = []; host = []; path = text "/nowhere"; raw_query = [] };
}

abbrev not_found : StatusRecorder
not_found =
    write_json (pos 404) (record { error = text "no route matched"; code = text "ROUTE_NOT_FOUND" })
      fresh

not_routed : (begin out rd lost writer start).1 ≡ answered not_found
unfolding begin match match_route match_path contains text_eq has_suffix has_prefix
    new_status_recorder
not_routed = refl

begin-answered_example :
    ((match start.router lost ≡ none) × (status not_found ≡ pos 404))
    ⊎ ((route : Route) × (match start.router lost ≡ some route)
        × Refused out rd
            (count_in out start)
            route
            lost
            (new_status_recorder writer)
            (status not_found))
begin-answered_example = begin-answered out rd lost [] start not_found not_routed
