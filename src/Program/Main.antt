-- ===== src/Program/Main.antt =====
-- `main` of cmd/gogateway/main.go and `Init` of internal/logger/logger.go.
use gogateway.Base.{Bool, true, false, Option, none, some, List, [], ◌∷◌, if◌then◌else◌}
use gogateway.Base.Int.{ℤ, pos}
use gogateway.Base.Text.{Text}
use gogateway.Config.{Config}
use gogateway.Config.Validate.{unreadable, unparsable, invalid, loaded, load, log_level_to_slog}
use gogateway.Http.{Url}
use gogateway.KeyStore.{KeyFileEntry}
use gogateway.Server.{Outside}
use gogateway.Server.Start.{Surroundings}
use gogateway.Program.{Gateway}
use gogateway.Program.Create.{create}
use gogateway.Program.Shutdown.{ServerCall, StopAnswers, shutdown}

-- The default logger: its level, and whether it writes to the standard output.
pub record Logger : Type 0 where
  pub level : ℤ
  pub to_stdout : Bool

-- `w` is `none` for a nil writer.
unfoldable pub init : ℤ → Option Text → Logger
init level none = record { level = level; to_stdout = true }
init level (some w) = record { level = level; to_stdout = false }

-- What `Start` returns, as `main` tells it apart.
pub data ServeError : Type 0 where
  server_closed : ServeError
  other_error : Text → ServeError

-- When `Start` returns, which it does once: before the first `select` of `main` ends, which then
-- takes its error; between that and the end of the last `select`; or not in this time.
pub data Served : Type 0 where
  before_signal after_signal : ServeError → Served
  still_serving : Served

-- `errCh`, which has room for one error.
abbrev pub Channel : Type 0
Channel = List ServeError

-- The goroutine of `Start`, up to the first `select`, and from it to the last.
unfoldable pub serve_early : Served → Channel → Channel
serve_early (before_signal e) ch = e ∷ ch
serve_early (after_signal e) ch = ch
serve_early still_serving ch = ch

unfoldable pub serve_late : Served → Channel → Channel
serve_late (before_signal e) ch = ch
serve_late (after_signal e) ch = e ∷ ch
serve_late still_serving ch = ch

-- A `select` that another case ends if the channel is empty.
unfoldable pub receive : Channel → Option ServeError × Channel
receive [] = (none, [])
receive (e ∷ ch) = (some e, ch)

-- err != nil && err != http.ErrServerClosed
unfoldable pub is_failure : Option ServeError → Bool
is_failure none = false
is_failure (some server_closed) = false
is_failure (some (other_error e)) = true

-- What `main` finds and how the calls that it makes end.
pub record World : Type 0 where
  pub file : Option Text
  pub around : Surroundings
  pub redis_answers : Bool
  pub served : Served
  pub stop : StopAnswers

-- How the process ends: the level of its logger, if it was made, the calls to its servers, and the
-- exit code.
pub record Ending : Type 0 where
  pub logger : Option Logger
  pub calls : List ServerCall
  pub code : ℤ

-- The exit code after `Shutdown` and the last `select`.
unfoldable pub exit_code : Option Text → Option ServeError → ℤ
exit_code (some e) last = pos 1
exit_code none last = if is_failure last then pos 1 else pos 0

-- From the first `select` on; `none` is a panic.
unfoldable pub serve : {F : Type 0} → Served → StopAnswers → Logger → Gateway F → Option Ending
serve served stop logger g =
    let (received, ch) = receive (serve_early served []) in
    elim (shutdown stop g) [
      | none ↦ none
      | some (g', calls, err) ↦
          let (last, ch') = receive (serve_late served ch) in
          some (record { logger = some logger; calls = calls; code = exit_code err last })
    ]

module _ {F : Type 0} (out : Outside F) (parse_url : Text → Option Url)
    (unmarshal_keys : Text → Option (List KeyFileEntry)) (unmarshal : Text → Option Config) where
  abbrev gives_up : Option Logger → Option Ending
  gives_up logger = some (record { logger = logger; calls = []; code = pos 1 })

  unfoldable pub main : World → Option Ending
  main w = elim (load unmarshal w.file) [
    | unreadable ↦ gives_up none
    | unparsable ↦ gives_up none
    | invalid e ↦ gives_up none
    | loaded cfg ↦
        let logger = init (log_level_to_slog cfg.gateway.log_level) none in
        elim (create out parse_url unmarshal_keys cfg w.around w.redis_answers) [
          | none ↦ gives_up (some logger)
          | some g ↦ serve w.served w.stop logger g
        ]
  ]
