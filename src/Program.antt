-- ===== src/Program.antt =====
-- The process of cmd/gogateway/main.go: the server with what runs beside its handler, from the
-- start to the exit.
pub mod Loop
pub mod Create
pub mod Shutdown
pub mod Main
pub mod Exit
mod Tests
use gogateway.Base.{Bool, Option}
use gogateway.Base.Text.{Text}
use gogateway.Server.{Server}

-- The server with its listeners and its background work. `redis` tells whether there is a Redis
-- client; `breaker_done` whether the channel is closed.
pub record Gateway (F : Type 0) : Type 0 where
  pub server : Server F
  pub redis : Bool
  pub listen : Text
  pub metrics_server : Option Text
  pub breaker_done : Bool
