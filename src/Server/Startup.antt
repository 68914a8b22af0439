-- ===== src/Server/Startup.antt =====
-- `main` of beam-init/src/main.rs with the options of beam-init/src/cli.rs: the calls before the
-- loop, the first event and the loop.
pub mod Ending
pub mod Examples
use beam_init.Base.{◌≡◌, ℕ, Bool, true, false, Option, none, some, List, [], ◌∷◌}
use beam_init.Base.Text.{Text}
use beam_init.Api.{CreateService}
use beam_init.Services.Types.{World, Credentials, ServiceManager}
use beam_init.Services.Spawn.{env_entries, c_strings, exec_strings, IoResult, done, failed, ◌>>◌}
use beam_init.Services.Manager.{validate, bootstrap_name, new_manager}
use beam_init.Services.Reap.{root}
use beam_init.Server.Command.{service_config, Host, create}
use beam_init.Server.Loop.{handle_event, round, Event, command, Next, crash, run}

-- The options, as they were parsed.
pub record Cli : Type 0 where
  pub environment_file : List Text
  pub bootstrap_graceful_termination_period : ℕ
  pub log_retention_lines : ℕ
  pub command : List Text

-- The results of the calls before the loop, each of which an `expect` stands on.
pub record Setup : Type 0 where
  pub getrlimit : IoResult (Unit {0})
  pub setrlimit : IoResult (Unit {0})
  pub signal_stream : IoResult (Unit {0})
  pub ptystore : IoResult (Unit {0})
  pub api_socket : IoResult (Unit {0})

-- `cli.command.remove(0)` panics without a command.
unfoldable pub bootstrap_service : Cli → List Text → Option CreateService
bootstrap_service cli [] = none
bootstrap_service cli (cmd ∷ args) = some (record {
  cmd = cmd;
  args = args;
  env = [];
  liveness = none;
  pty = false;
  labels = [];
  graceful_termination_period = cli.bootstrap_graceful_termination_period;
})

-- The calls in their order, up to the first that fails.
unfoldable pub set_up : Setup → IoResult (Unit {0})
set_up setup =
    setup.getrlimit
    >> (setup.setrlimit >> (setup.signal_stream >> (setup.ptystore >> setup.api_socket)))

-- What is left once the program ended: the effects of the manager.
world_of : Next × ServiceManager → Next × World
world_of (next, m) = (next, m.world)

-- A failed `expect`, before anything was asked for.
abbrev crashed : Next × World
crashed = (crash, record { effects = []; next_id = 0 })

unfoldable pub serve : Host → Cli → List Event → IoResult (Unit {0}) → CreateService → Next × World
unfolding world_of
serve host cli events (failed e) service = crashed
serve host cli events (done u) service = world_of (
    run host (Event.command (create bootstrap_name service) root ∷ events)
      (new_manager cli.environment_file cli.log_retention_lines))

-- How the program ends on the events that follow the first one, and what it asked for by then.
unfoldable pub main : Host → Setup → Cli → List Event → Next × World
unfolding bootstrap_service set_up serve
main host setup cli events = elim (bootstrap_service cli cli.command) [
  | none ↦ crashed
  | some service ↦ serve host cli events (set_up setup) service
]
