-- ===== src/Program/Exit.antt =====
-- With which code cmd/gogateway/main.go ends.
use gogateway.Base.{
  ◌≡◌, ◌⊎◌, ◌↔◌, refl, Bool, false, Option, none, some, List, [], ◌++◌, Option-cases, Bool-cases,
  is_nil, inl, inr, arith,
}
use mathlib.Core.Path.{subst}
use gogateway.Base.Int.{pos}
use gogateway.Base.Text.{Text}
use gogateway.Config.{Config}
use gogateway.Config.Validate.{
  ConfigError, Loaded, unreadable, unparsable, invalid, loaded, load, log_level_to_slog,
}
use gogateway.Http.{Url}
use gogateway.KeyStore.{KeyFileEntry}
use gogateway.Server.{Outside}
use gogateway.Server.Start.{Surroundings, new}
use gogateway.Program.{Gateway}
use gogateway.Program.Create.{create, start_metrics_server}
use gogateway.Program.Shutdown.{
  ServerCall, StopAnswers, ShutdownAnswer, drained, deadline_exceeded, failed, Stops, shutdown,
  shutdown_metrics_server, finish_shutdown,
}
use gogateway.Program.Main.{
  Logger, ServeError, server_closed, other_error, Served, before_signal, after_signal,
  still_serving, serve_early, serve_late, receive, is_failure, World, Ending, init, exit_code,
  serve, main,
}

-- After the signal `Start` returned another error than that of a closed server.
abbrev FailsLate : Served → Type 0
FailsLate served = (m : Text) × (served ≡ after_signal (other_error m))

finish_shutdown-Stops :
    (answer : ShutdownAnswer) (closing : Option Text)
    → ((finish_shutdown answer closing).1 ≡ none)
      ↔ ((answer ≡ drained) ⊎ ((answer ≡ deadline_exceeded) × (closing ≡ none)))
unfolding finish_shutdown
finish_shutdown-Stops drained closing = ground arith
finish_shutdown-Stops deadline_exceeded closing = ground arith
finish_shutdown-Stops (failed e) closing = ground arith

exit_code_iff :
    (err : Option Text) (last : Option ServeError)
    → (exit_code err last ≡ pos 0) ↔ ((err ≡ none) × (is_failure last ≡ false))
unfolding exit_code
exit_code_iff none last = ground arith
exit_code_iff (some e) last = ground arith

last_error_iff :
    (served : Served)
    → (is_failure (receive (serve_late served (receive (serve_early served [])).1)).0 ≡ false)
      ↔ (¬ FailsLate served)
unfolding receive serve_late serve_early is_failure
last_error_iff (before_signal e) = (λ p (m, same). ground arith, λ p. refl)
last_error_iff (after_signal server_closed) = (λ p (m, same). ground arith, λ p. refl)
last_error_iff (after_signal (other_error m)) = (λ p. ground arith, λ p. absurd (p (m, refl)))
last_error_iff still_serving = (λ p (m, same). ground arith, λ p. refl)

serve-code :
    {F : Type 0} (served : Served) (stop : StopAnswers) (logger : Logger) (g : Gateway F)
    → g.breaker_done ≡ false
    → (e : Ending) × (serve served stop logger g ≡ some e)
      × ((e.code ≡ pos 0) ↔ (Stops stop × ¬ FailsLate served))
unfolding serve shutdown
serve-code served stop logger g running =
    let err = (finish_shutdown stop.main_shutdown stop.main_close).1 in
    let last = (receive (serve_late served (receive (serve_early served [])).1)).0 in
    let coded = exit_code_iff err last in
    let stops = finish_shutdown-Stops stop.main_shutdown stop.main_close in
    let late = last_error_iff served in
    let made : List ServerCall =
      (shutdown_metrics_server g.metrics_server stop.metrics_shutdown).0
      ++ (finish_shutdown stop.main_shutdown stop.main_close).0 in
    (
      record { logger = some logger; calls = made; code = exit_code err last },
      rw running refl,
      (
        λ p. (let (stopped, fine) = coded.0 p in (stops.0 stopped, late.0 fine)),
        λ (stopped, fine). coded.1 (stops.1 stopped, late.1 fine),
      ),
    )

Loaded-cases :
    (l : Loaded)
    → ((l ≡ unreadable) ⊎ (l ≡ unparsable) ⊎ ((e : ConfigError) × (l ≡ invalid e)))
      ⊎ ((cfg : Config) × (l ≡ loaded cfg))
Loaded-cases unreadable = inl (inl refl)
Loaded-cases unparsable = inl (inr (inl refl))
Loaded-cases (invalid e) = inl (inr (inr (e, refl)))
Loaded-cases (loaded cfg) = inr (cfg, refl)

module _ {F : Type 0} (out : Outside F) (parse_url : Text → Option Url)
    (unmarshal_keys : Text → Option (List KeyFileEntry)) (unmarshal : Text → Option Config) where
  -- `create` gives a server whose channel is open.
  create-running :
      (cfg : Config) (around : Surroundings) (redis_answers : Bool) (g : Gateway F)
      → create out parse_url unmarshal_keys cfg around redis_answers ≡ some g
      → g.breaker_done ≡ false
  unfolding create start_metrics_server
  create-running cfg around redis_answers g made =
      elim (Option-cases (new out parse_url unmarshal_keys cfg around)) [
        | inl broken ↦ ground arith
        | inr (s, there) ↦ elim (Bool-cases (is_nil cfg.gateway.metrics_listen)) [
          | inl no_address ↦ ground arith
          | inr address ↦ ground arith
        ]
      ]

  -- The configuration is loaded, the server made and stopped, and it did not fail while it stopped.
  abbrev pub EndsWell : World → Type 0
  EndsWell w =
      (cfg : Config) × (g : Gateway F) × (load unmarshal w.file ≡ loaded cfg)
      × (create out parse_url unmarshal_keys cfg w.around w.redis_answers ≡ some g)
      × Stops w.stop
      × ¬ FailsLate w.served

  main-not_loaded :
      (w : World)
      → let l = load unmarshal w.file in
        (l ≡ unreadable) ⊎ (l ≡ unparsable) ⊎ ((err : ConfigError) × (l ≡ invalid err))
        → (e : Ending) × (main out parse_url unmarshal_keys unmarshal w ≡ some e)
          × ((e.code ≡ pos 0) ↔ EndsWell w)
  unfolding main
  main-not_loaded w bad =
      let e : Ending = record { logger = none; calls = []; code = pos 1 } in
      elim bad [
        | inl unread ↦ (
          e,
          rw (main, unread) refl,
          (λ p. ground arith, λ (cfg, g, there, made, stops, fine). ground arith),
        )
        | inr (inl unparsed) ↦ (
          e,
          rw (main, unparsed) refl,
          (λ p. ground arith, λ (cfg, g, there, made, stops, fine). ground arith),
        )
        | inr (inr (err, refused)) ↦ (
          e,
          rw (main, refused) refl,
          (λ p. ground arith, λ (cfg, g, there, made, stops, fine). ground arith),
        )
      ]

  -- The process never panics, and it ends with the exit code 0 exactly when the configuration is
  -- loaded, the server is made, its shutdown drains or is forced without an error, and `Start` does
  -- not fail after the first `select`. Whether it failed before, say since the port was taken, has no
  -- influence.
  pub main-exit :
      (w : World)
      → (e : Ending) × (main out parse_url unmarshal_keys unmarshal w ≡ some e)
        × ((e.code ≡ pos 0) ↔ EndsWell w)
  unfolding main
  main-exit w = elim (Loaded-cases (load unmarshal w.file)) [
    | inl bad ↦ main-not_loaded w bad
    | inr (cfg, there) ↦
        let logger = init (log_level_to_slog cfg.gateway.log_level) none in
        elim (Option-cases (create out parse_url unmarshal_keys cfg w.around w.redis_answers)) [
          | inl broken ↦ (
            record { logger = some logger; calls = []; code = pos 1 },
            rw (main, there, broken) refl,
            (
              λ p. ground arith,
              λ (cfg', g', there', made', stops, fine).
                  let same : cfg ≡ cfg' = ground arith in
                  let none_made =
                    subst
                      (λ (c : Config).
                        create out parse_url unmarshal_keys c w.around w.redis_answers ≡ none)
                      same broken in
                  ground arith,
            ),
          )
          | inr (g, made) ↦
              let (e, ends, coded) =
                serve-code w.served w.stop logger g
                  (create-running cfg w.around w.redis_answers g made) in
              (
                e,
                rw (main, there, made) ends,
                (
                  λ p. (let (well, fine) = coded.0 p in (cfg, g, there, made, well, fine)),
                  λ (cfg', g', there', made', well, fine). coded.1 (well, fine),
                ),
              )
        ]
  ]
