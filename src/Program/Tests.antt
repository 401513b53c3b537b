-- ===== src/Program/Tests.antt =====
-- Runs of the process of cmd/gogateway/main.go. The floats are natural numbers.
use gogateway.Base.{◌≡◌, ◌↔◌, true, false, Option, none, some, [], ◌∷◌, ◌++◌, map}
use gogateway.Base.Int.{pos}
use gogateway.Base.Text.{Text, text}
use gogateway.Config.{Config}
use gogateway.Metrics.{new_metrics, set_breaker_states}
use gogateway.Program.Loop.{ticked, stopped, run_breaker_state_loop, run_breaker_state_loop-stopped}
use gogateway.Program.Shutdown.{drained}
use gogateway.Program.Main.{other_error, before_signal, World, Ending, main}
use gogateway.Program.Exit.{EndsWell, main-exit}
use gogateway.Server.Samples.{naturals, out, parse_url, unmarshal_keys, cfg, around}

run_breaker_state_loop-stopped_example :
    run_breaker_state_loop naturals
      (map ticked ([] ∷ ((text "a:b", pos 1) ∷ []) ∷ []) ++ stopped ∷ ticked [] ∷ [])
      (new_metrics naturals)
    ≡ (set_breaker_states naturals ((text "a:b", pos 1) ∷ []) (new_metrics naturals), true)
run_breaker_state_loop-stopped_example =
    run_breaker_state_loop-stopped naturals ([] ∷ ((text "a:b", pos 1) ∷ []) ∷ []) (ticked [] ∷ [])
      (new_metrics naturals)

abbrev unmarshal : Text → Option Config
unmarshal file = some cfg

-- The port is taken, and then the shutdown has nothing to do.
abbrev port_taken : World
port_taken = record {
  file = some [];
  around = around;
  redis_answers = false;
  served = before_signal (other_error (text "address already in use"));
  stop = record { metrics_shutdown = none; main_shutdown = drained; main_close = none };
}

main-exit_example :
    (e : Ending) × (main out parse_url unmarshal_keys unmarshal port_taken ≡ some e)
    × ((e.code ≡ pos 0) ↔ EndsWell out parse_url unmarshal_keys unmarshal port_taken)
main-exit_example = main-exit out parse_url unmarshal_keys unmarshal port_taken
