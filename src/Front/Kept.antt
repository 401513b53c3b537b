-- ===== src/Front/Kept.antt =====
-- The request ID of internal/middleware/requestid.go in the response that internal/server/server.go
-- writes.
use gogateway.Base.{◌≡◌, refl, ◌∙◌, false, List, [], ◌∷◌, All, All-append, Bool-cases, inl, inr}
use gogateway.Base.Int.{ℤ}
use gogateway.Base.Text.{Text, text, text_eq}
use gogateway.Config.{RateLimitCfg}
use gogateway.Base.Clock.{Time}
use gogateway.Http.{Header, get, set, get-set, canonical}
use gogateway.Limiter.{Verdict}
use gogateway.Server.Recorder.{
  ResponseWriter, StatusRecorder, Sent, code_sent, data_sent, Action, change_header, send_code,
  send_data, write_header, write, perform, perform_all, ErrorBody, write_json,
}
use gogateway.Server.RateLimit.{limit_headers}

abbrev pub id_of : Header → Text
id_of h = get (text "X-Request-Id") h

-- The action leaves the ID in the header map as it is.
abbrev pub KeepsId : Action → Type 0
KeepsId (change_header f) = (h : Header) → id_of (f h) ≡ id_of h
KeepsId (send_code code) = Unit
KeepsId (send_data data') = Unit

-- A code was sent together with the ID.
abbrev pub SentWith : Text → Sent → Type 0
SentWith id (code_sent code h) = id_of h ≡ id
SentWith id (data_sent data') = Unit

-- The ID is in the header map and in every header that was sent.
abbrev pub Carries : Text → ResponseWriter → Type 0
Carries id w = (id_of w.header ≡ id) × All (SentWith id) w.sent

module _ (id : Text) where
  write_header-Carries :
      (code : ℤ) (r : StatusRecorder)
      → Carries id r.response_writer
      → Carries id (write_header code r).response_writer
  unfolding write_header
  write_header-Carries code r (here, all) =
      (here, All-append (SentWith id) r.response_writer.sent _ all (here, tt))

  write-Carries :
      (data' : Text) (r : StatusRecorder)
      → Carries id r.response_writer
      → Carries id (write data' r).response_writer
  unfolding write write_header
  write-Carries data' r carries = elim (Bool-cases r.wrote_header) [
    | inl wrote ↦ rw (write, wrote) (carries.0, All-append (SentWith id) _ _ carries.1 (tt, tt))
    | inr new ↦
        let (here, all) = write_header-Carries _ r carries in
        rw (write, new) (here, All-append (SentWith id) _ _ all (tt, tt))
  ]

  perform-Carries :
      (a : Action) (r : StatusRecorder)
      → KeepsId a
      → Carries id r.response_writer
      → Carries id (perform a r).response_writer
  unfolding perform
  perform-Carries (change_header f) r keeps (here, all) =
      (keeps r.response_writer.header ∙ here, all)
  perform-Carries (send_code code) r keeps carries = write_header-Carries code r carries
  perform-Carries (send_data data') r keeps carries = write-Carries data' r carries

  pub perform_all-Carries :
      (actions : List Action) (r : StatusRecorder)
      → All KeepsId actions
      → Carries id r.response_writer
      → Carries id (perform_all actions r).response_writer
  unfolding perform_all
  perform_all-Carries [] r keeps carries = carries
  perform_all-Carries (a ∷ actions) r (this, rest) carries =
      perform_all-Carries actions (perform a r) rest (perform-Carries a r this carries)

pub set-KeepsId :
    (name value : Text)
    → text_eq (canonical name) (canonical (text "X-Request-Id")) ≡ false
    → KeepsId (change_header (set name value))
set-KeepsId name value other h = get-set name (text "X-Request-Id") value h ∙ rw other refl

pub write_json-Carries :
    (id : Text) (code : ℤ) (body : ErrorBody) (r : StatusRecorder)
    → Carries id r.response_writer
    → Carries id (write_json code body r).response_writer
unfolding write_json canonical text_eq
write_json-Carries id code body r =
    perform_all-Carries id _ r (set-KeepsId (text "Content-Type") _ refl, (tt, (tt, tt)))

pub limit_headers-KeepsId :
    (lim : RateLimitCfg) (v : Verdict) (now : Time) → All KeepsId (limit_headers lim v now)
unfolding limit_headers canonical text_eq
limit_headers-KeepsId lim v now = (
  set-KeepsId (text "X-RateLimit-Limit") _ refl,
  (
    set-KeepsId (text "X-RateLimit-Remaining") _ refl,
    (set-KeepsId (text "X-RateLimit-Reset") _ refl, tt),
  ),
)
