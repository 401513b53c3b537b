-- ===== src/Front/Carried.antt =====
-- Requests and responses that pass through internal/server/server.go carry a request ID.
use gogateway.Base.{◌≡◌, refl, sym, ◌∙◌, if◌then◌else◌, is_nil}
use mathlib.Core.Path.{subst}
use gogateway.Base.Text.{Text}
use gogateway.Http.{Header, Request}
use gogateway.RequestId.{request_id, generate_id, request_id-eq}
use gogateway.Server.{Outside, Server, Readings, LateReadings}
use gogateway.Server.Recorder.{StatusRecorder}
use gogateway.Server.Handler.{
  InFlight, Admission, answered, panicked, forwarded, ProxyRun, begin, complete, serve_route,
}
use gogateway.Server.Runs.{new_writer}
use gogateway.Front.Kept.{id_of, Carries}
use gogateway.Front.Admitted.{Admits, begin-Admits}
use gogateway.Front.Entry.{EntryReadings, identified}

-- The ID that the request came with, or the generated one.
abbrev pub id_for : Text → Request → Text
id_for random r = let given = id_of r.header in if is_nil given then generate_id random else given

request_id-carries :
    (random : Text) (r : Request) (h : Header)
    → let (passed, header) = request_id random r h in
      (id_of passed.header ≡ id_for random r) × (id_of header ≡ id_for random r)
request_id-carries random r h = let (asks, same) = request_id-eq random r h in (asks, same ∙ asks)

-- The handler answers the request, or it panics, without calling the proxy.
abbrev pub Stops : Admission → Type 0
Stops (answered w) = Unit
Stops (panicked w) = Unit
Stops (forwarded f) = ⊥

Carries-outcome :
    {A : Type 0} (id : Text) (a : Admission) (done : StatusRecorder → A × StatusRecorder)
    (go : InFlight → A × StatusRecorder)
    → ((w : StatusRecorder) → (done w).1 ≡ w)
    → Stops a
    → Admits id a
    → Carries id
        (elim a as (λ (x : Admission). A × StatusRecorder) [
          | answered w ↦ done w
          | panicked w ↦ done w
          | forwarded f ↦ go f
        ]).1.response_writer
Carries-outcome id (answered w) done go same stops p =
    subst (λ (w' : StatusRecorder). Carries id w'.response_writer) (sym (same w)) p
Carries-outcome id (panicked w) done go same stops p =
    subst (λ (w' : StatusRecorder). Carries id w'.response_writer) (sym (same w)) p
Carries-outcome id (forwarded f) done go same stops p = absurd stops

-- If the middleware passes a request on and `serveRoute` ends without calling the proxy, each code
-- that the client receives is sent with the ID that the request came with, or with a generated one if
-- it came with none, if nothing was sent before.
pub identified-Carries :
    {F : Type 0} (out : Outside F) (entry : EntryReadings) (rd : Readings) (late : LateReadings)
    (proxy : Request → ProxyRun) (r : Request) (h : Header) (s : Server F)
    → let (passed, header) = request_id entry.random r h in
      Stops (begin out rd passed (new_writer header) s).1
      → Carries (id_for entry.random r) (identified out entry rd late proxy r (new_writer h) s).1
unfolding identified serve_route complete
identified-Carries out entry rd late proxy r h s stops =
    let (passed, header) = request_id entry.random r h in
    let id = id_for entry.random r in
    let (asks, marked) = request_id-carries entry.random r h in
    Carries-outcome id (begin out rd passed (new_writer header) s).1 _ _ (λ w. refl) stops
      (begin-Admits id out rd passed (new_writer header) s asks (marked, tt))
