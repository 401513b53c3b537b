-- ===== src/Server/Recorder.antt =====
-- `statusRecorder` and `writeJSON` of internal/server/server.go. The response writer of net/http
-- under the recorder is its header map and the calls that it received.
use gogateway.Base.{
  ◌≡◌, refl, Bool, true, false, List, [], ◌∷◌, ◌++◌, is_nil, ap, if◌then◌else◌, arith,
}
use gogateway.Base.Int.{ℤ, pos}
use gogateway.Base.Text.{Text, text}
use gogateway.Http.{Header, set}

-- A call of `WriteHeader`, with the headers at that time, or of `Write`.
pub data Sent : Type 0 where
  code_sent : ℤ → Header → Sent
  data_sent : Text → Sent

pub record ResponseWriter : Type 0 where
  pub header : Header
  pub sent : List Sent

pub record StatusRecorder : Type 0 where
  pub response_writer : ResponseWriter
  pub status_code : ℤ
  pub wrote_header : Bool

abbrev pub send : Sent → ResponseWriter → ResponseWriter
send s w = record w { sent = w.sent ++ s ∷ [] }

-- &statusRecorder{ResponseWriter: w}
unfoldable pub new_status_recorder : ResponseWriter → StatusRecorder
new_status_recorder w = record { response_writer = w; status_code = pos 0; wrote_header = false }

unfoldable pub write_header : ℤ → StatusRecorder → StatusRecorder
write_header code r =
    let noted =
      if r.wrote_header then r else (record r { status_code = code; wrote_header = true }) in
    record noted {
      response_writer = send (code_sent code r.response_writer.header) r.response_writer;
    }

unfoldable pub write : Text → StatusRecorder → StatusRecorder
write data' r =
    let begun = if r.wrote_header then r else write_header (pos 200) r in
    record begun { response_writer = send (data_sent data') begun.response_writer }

unfoldable pub status : StatusRecorder → ℤ
status r = r.status_code

-- What a handler that was given the recorder does with it.
pub data Action : Type 0 where
  change_header : (Header → Header) → Action
  send_code : ℤ → Action
  send_data : Text → Action

unfoldable pub perform : Action → StatusRecorder → StatusRecorder
perform (change_header f) r = record r {
  response_writer = record r.response_writer { header = f r.response_writer.header };
}
perform (send_code code) r = write_header code r
perform (send_data data') r = write data' r

unfoldable pub perform_all : List Action → StatusRecorder → StatusRecorder
perform_all [] r = r
perform_all (a ∷ actions) r = perform_all actions (perform a r)

pub record ErrorBody : Type 0 where
  pub error : Text
  pub code : Text

abbrev pub quoted : Text → Text
quoted s = b'"' ∷ s ++ b'"' ∷ []

-- json.NewEncoder(w).Encode(v), for texts without characters to escape, as all of the gateway's are.
unfoldable pub encode : ErrorBody → Text
encode body =
    (b'{' ∷ quoted (text "error"))
    ++ (b':' ∷ quoted body.error)
    ++ (b',' ∷ quoted (text "code"))
    ++ (b':' ∷ quoted body.code)
    ++ b'}' ∷ 10 ∷ []

unfoldable pub write_json : ℤ → ErrorBody → StatusRecorder → StatusRecorder
write_json code body r =
    perform_all
      (change_header (set (text "Content-Type") (text "application/json; charset=utf-8"))
        ∷ send_code code
        ∷ send_data (encode body)
        ∷ [])
      r

-- The first code that the list sends; data that is sent before any code sends the code 200.
abbrev pub first_code : List Action → ℤ
first_code [] = pos 0
first_code (change_header f ∷ actions) = first_code actions
first_code (send_code code ∷ actions) = code
first_code (send_data data' ∷ actions) = pos 200

-- The code of the first call that the writer received.
abbrev pub code_first_sent : List Sent → ℤ
code_first_sent [] = pos 0
code_first_sent (code_sent code h ∷ sent) = code
code_first_sent (data_sent data' ∷ sent) = pos 0

is_nil-append : (sent : List Sent) (s : Sent) → is_nil (sent ++ s ∷ []) ≡ false
is_nil-append [] s = refl
is_nil-append (x ∷ sent) s = refl

code_first_sent-append :
    (sent more : List Sent)
    → is_nil sent ≡ false
    → code_first_sent (sent ++ more) ≡ code_first_sent sent
code_first_sent-append [] more h = ground arith
code_first_sent-append (code_sent code h ∷ sent) more k = refl
code_first_sent-append (data_sent data' ∷ sent) more k = refl

-- The recorder has noted the code of the first call.
abbrev Noted : StatusRecorder → ℤ → Type 0
Noted r code =
    (r.wrote_header ≡ true)
    × (r.status_code ≡ code)
    × (is_nil r.response_writer.sent ≡ false)
    × (code_first_sent r.response_writer.sent ≡ code)

abbrev pub Fresh : StatusRecorder → Type 0
Fresh r = (r.wrote_header ≡ false) × (r.status_code ≡ pos 0) × (r.response_writer.sent ≡ [])

perform-Noted :
    (a : Action) (r : StatusRecorder) (code : ℤ) → Noted r code → Noted (perform a r) code
unfolding perform write_header write
perform-Noted (change_header f) r code noted = noted
perform-Noted (send_code c) r code noted = ground (
  arith,
  is_nil-append r.response_writer.sent (code_sent c r.response_writer.header),
  code_first_sent-append r.response_writer.sent (code_sent c r.response_writer.header ∷ []),
)
perform-Noted (send_data data') r code noted = ground (
  arith,
  is_nil-append r.response_writer.sent (data_sent data'),
  code_first_sent-append r.response_writer.sent (data_sent data' ∷ []),
)

perform_all-Noted :
    (actions : List Action) (r : StatusRecorder) (code : ℤ)
    → Noted r code
    → Noted (perform_all actions r) code
unfolding perform_all
perform_all-Noted [] r code noted = noted
perform_all-Noted (a ∷ actions) r code noted =
    perform_all-Noted actions (perform a r) code (perform-Noted a r code noted)

pub perform_all-Fresh :
    (actions : List Action) (r : StatusRecorder)
    → Fresh r
    → ((perform_all actions r).status_code ≡ first_code actions)
      × (code_first_sent (perform_all actions r).response_writer.sent ≡ first_code actions)
unfolding perform_all perform write_header write
perform_all-Fresh [] r (unwritten, zero', nothing) = (zero', ap code_first_sent nothing)
perform_all-Fresh (change_header f ∷ actions) r fresh = perform_all-Fresh actions _ fresh
perform_all-Fresh (send_code c ∷ actions) r fresh =
    let (wrote, coded, some_sent, first) =
      perform_all-Noted actions (perform (send_code c) r) c (ground arith) in
    (coded, first)
perform_all-Fresh (send_data data' ∷ actions) r fresh =
    let (wrote, coded, some_sent, first) =
      perform_all-Noted actions (perform (send_data data') r) (pos 200) (ground arith) in
    (coded, first)

-- After a handler has used a new recorder, the status that the recorder reports is the first code
-- that the handler sent, informational codes included, and this is the first code that the client's
-- connection received; it is 0 if nothing was sent.
pub status-perform_all :
    (actions : List Action) (h : Header)
    → let r = perform_all actions (new_status_recorder (record { header = h; sent = [] })) in
      (status r ≡ first_code actions)
      × (code_first_sent r.response_writer.sent ≡ first_code actions)
unfolding new_status_recorder status
status-perform_all actions h = perform_all-Fresh actions _ (refl, refl, refl)
