-- ===== src/Server/Runs.antt =====
-- Requests of many goroutines, as internal/server/server.go serves them: each is begun and, if it is
-- forwarded, is with the proxy until that returns; the clean-up of the limiter comes in between, and
-- so does the export of the breakers' states. Each of these is one step; Server.Phases has a finer cut.
use gogateway.Base.{ℕ, ◌<◌, ◌≡◌, List, [], ◌∷◌, ◌++◌, length, ◌⊎◌}
use gogateway.Base.Clock.{Time}
use gogateway.Http.{Header, Request}
use gogateway.Router.{match}
use gogateway.Limiter.{clean_expired}
use gogateway.Server.{Outside, Server, Readings, LateReadings}
use gogateway.Server.Recorder.{ResponseWriter, StatusRecorder}
use gogateway.Server.Export.{export_states}
use gogateway.Server.Handler.{
  InFlight, Admission, answered, panicked, forwarded, ProxyRun, begin, settle, complete,
}

pub record State (F : Type 0) : Type 0 where
  pub server : Server F
  pub in_flight : List InFlight

-- 2 ^ 53, below which a `float64` counts exactly.
abbrev pub two53 : ℕ
two53 = 9007199254740992

-- The writer of a new connection.
abbrev pub new_writer : Header → ResponseWriter
new_writer h = record { header = h; sent = [] }

-- `Upstreams` is what the proxy may do: everything, or what some upstreams do.
module _ {F : Type 0} (out : Outside F) (Upstreams : ProxyRun → Type 0) where
  pub data Step : State F → State F → Type 0 where
    -- A request that is answered, or ends in a panic, without being forwarded.
    ends :
        {s s' : Server F} {fs : List InFlight} {admission : Admission} (rd : Readings)
        (late : LateReadings) (r : Request) (h : Header) (w : StatusRecorder)
        → begin out rd r (new_writer h) s ≡ (s', admission)
        → (admission ≡ answered w) ⊎ (admission ≡ panicked w)
        → Step
            (record { server = s; in_flight = fs })
            (record { server = settle out (match s.router r) r.method late w s'; in_flight = fs })
    starts :
        {s s' : Server F} {fs : List InFlight} (rd : Readings) (r : Request) (h : Header)
        (f : InFlight)
        → begin out rd r (new_writer h) s ≡ (s', forwarded f)
        → Step (record { server = s; in_flight = fs }) (record { server = s'; in_flight = f ∷ fs })
    returns :
        {s : Server F} (before after : List InFlight) (late : LateReadings) (f : InFlight)
        (run : ProxyRun)
        → Upstreams run
        → Step
            (record { server = s; in_flight = before ++ f ∷ after })
            (record { server = (complete out late f run s).0; in_flight = before ++ after })
    sweeps :
        {s : Server F} {fs : List InFlight} (now : Time)
        → Step
            (record { server = s; in_flight = fs })
            (record {
              server = record s { rate_limiter = clean_expired now s.rate_limiter };
              in_flight = fs;
            })
    exports :
        {s : Server F} {fs : List InFlight}
        → Step
            (record { server = s; in_flight = fs })
            (record { server = export_states out s; in_flight = fs })

  -- The states that a server comes through, with fewer than 2 ^ 53 requests in flight.
  pub data Reachable (start : Server F) : State F → Type 0 where
    started : Reachable start (record { server = start; in_flight = [] })
    continued :
        {st st' : State F}
        → Reachable start st
        → length st.in_flight < two53
        → Step st st'
        → Reachable start st'
