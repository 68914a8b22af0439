-- ===== src/Server/Startup/Ending.antt =====
-- The end of the program with the bootstrap service that it was started for (Server/Startup).
use beam_init.Base.{Option, ℕ, false, none, some, List, [], ◌∷◌, ◌≡◌}
use beam_init.Base.Text.{Text}
use beam_init.Base.Map
use beam_init.Api.{CreateService}
use beam_init.Services.Types.{
  World, running, spawn_log_writer, fork_service, ServiceManager, ServiceConfig, Service,
  ServiceProcess,
}
use beam_init.Services.Outcome.{ok}
use beam_init.Services.Service.{emit, take_id, set_status}
use beam_init.Services.Spawn.{Report, done, closed, c_string, c_strings, env_entries}
use beam_init.Server.Loop.{resume}
use beam_init.Services.Spawn.Child.{report, children, log, Sys, Child}
use beam_init.Services.Manager.{store, bootstrap_name, new_manager, validate, new_service}
use beam_init.Services.Reap.{root}
use beam_init.Server.Command.{Host, service_config}
use beam_init.Server.Startup.{Cli, Setup, set_up}
use beam_init.Server.Loop.{resume}

-- The program works up to the start of the bootstrap service, whose children give `report`.
pub record Works (host : Host) (setup : Setup) (cmd : Text) (args : List Text) (r : Report)
    : Type 0 where
  pub set_up : set_up setup ≡ done tt
  pub env_valid : validate host.vars ≡ ok tt
  pub cmd_string : c_string cmd ≡ done cmd
  pub args_strings : c_strings args ≡ done args
  pub log_pipe : (call : ℕ) → host.os.open_log_pipe call ≡ done tt
  pub pipes : (call : ℕ) → host.os.open_pipes call ≡ done tt
  pub fork : (call : ℕ) → host.os.fork call ≡ done tt
  pub report : (call : ℕ) → host.os.report call ≡ r

abbrev service : Cli → Text → List Text → CreateService
service cli cmd args = record {
  cmd = cmd;
  args = args;
  env = [];
  liveness = none;
  pty = false;
  labels = [];
  graceful_termination_period = cli.bootstrap_graceful_termination_period;
}

abbrev process : ℕ → ServiceProcess
process pid = record { main_pid = pid; monitor_tx = none }

-- The children of the bootstrap service, whose output is logged.
abbrev pub bootstrap_children : Host → Text → List Text → Sys → Child × Option ℕ
bootstrap_children host cmd args sys = children sys log (cmd ∷ args) (env_entries host.vars) root

-- What the program asks for up to the end of the bootstrap service: the writer of its log, and its
-- process.
abbrev pub asked_by : Host → Text → List Text → World
asked_by host cmd args = record {
  effects = fork_service (cmd ∷ args) (env_entries host.vars) false root ∷ spawn_log_writer 1 ∷ [];
  next_id = 2;
}

module _ (host : Host) (setup : Setup) (cli : Cli) (cmd : Text) (args : List Text) (pid : ℕ)
    (w : Works host setup cmd args (closed (done pid))) where
  abbrev config : ServiceConfig
  config = service_config root (service cli cmd args) host.vars

  abbrev empty_manager : ServiceManager
  empty_manager = new_manager cli.environment_file cli.log_retention_lines

  -- The bootstrap service once it is started.
  booted : Service
  unfolding new_service set_status
  booted =
      let s = new_service config empty_manager in
      set_status (running (process pid) none)
        (record s { state = record (s.state) { logs = record (s.state.logs) { writer = some 1 } } })

  booted_manager : ServiceManager
  unfolding emit take_id booted
  booted_manager =
      store bootstrap_name booted
        (emit (fork_service (cmd ∷ args) (env_entries host.vars) false root)
          (take_id (emit (spawn_log_writer 1) (take_id (record { effects = []; next_id = 0 })))))
        empty_manager
