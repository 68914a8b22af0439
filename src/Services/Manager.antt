-- ===== src/Services/Manager.antt =====
-- `impl ServiceManager` of beam-init/src/services.rs: creating, finding and starting services.
-- An operation takes the manager and returns its result beside the manager afterwards, also where
-- the result is an error or a panic.
use beam_init.Base.{
  List, ℕ, ◌+◌, ◌-◌, ◌^◌, true, false, ◌||◌, Option, none, some, [], ◌∷◌, ◌++◌, ◌==◌, ltb,
  if◌then◌else◌, length, min,
}
use beam_init.Base.Text.{Text, codes, contains, text_eq}
use beam_init.Base.Map
use beam_init.Base.Map.{Map}
use beam_init.Api
use beam_init.Logs.{new}
use beam_init.Services.Types.{
  Credentials, IoError, service_not_found, service_exists, spawn_failed, invalid_request,
  bootstrap_is_protected, shutting_down, ServiceConfig, StartReason, automatic, user, Pty,
  ServiceStatus, Service, MonitorCommandSender, World, spawn_log_writer, spawn_log_message,
  ServiceManager, ServiceProcess,
}
use beam_init.Services.Outcome.{Outcome, ok, err, panic, ◌>>=◌, ◌>>◌, ok_or, fail_if}
use beam_init.Services.Service.{emit, take_id, check_credentials, set_status, abort, restart_probe}
use beam_init.Services.Spawn.{IoResult, done, failed, Os, spawn_service}

abbrev pub Step : Type 0 → Type 0
Step A = Outcome A × ServiceManager

-- `BOOTSTRAP_NAME` of beam-init/src/lib.rs.
abbrev pub bootstrap_name : Text
bootstrap_name = codes "bootstrap"

-- Writes a service and the world back.
abbrev pub store : Text → Service → World → ServiceManager → ServiceManager
store name s w m = record m { services = Map.insert name s m.services; world = w }

-- The removal of a service; dropping its `Logs` aborts the log writer.
abbrev pub removed : Text → Service → ServiceManager → ServiceManager
removed name s m = record m {
  services = Map.remove name m.services;
  world = abort s.state.logs.writer m.world;
}

-- Goes on with the service that was found, or returns the error.
abbrev pub with_service :
    Outcome Service → ServiceManager → (Service → Step (Unit {0})) → Step (Unit {0})
with_service (ok s) m f = f s
with_service (err e) m f = (err e, m)
with_service panic m f = (panic, m)

-- `ServiceManager::new`, before any event.
unfoldable pub new_manager : (user_env_files : List Text) (log_retention_lines : ℕ) → ServiceManager
new_manager user_env_files log_retention_lines = record {
  services = [];
  user_env_files = user_env_files;
  log_retention_lines = log_retention_lines;
  shutdown = false;
  world = record { effects = []; next_id = 0 };
}

unfoldable pub valid_entry : Text → Text → Outcome (Unit {0})
valid_entry k v = do
  fail_if (length k == 0) (invalid_request (codes "environment keys may not be empty"))
  fail_if (contains b'=' k) (invalid_request (codes "environment keys may not contain '='"))
  fail_if (contains 0 k || contains 0 v)
      (invalid_request (codes "environment key/value may not contain NUL"))

-- `ServiceConfig::validate`.
unfoldable pub validate : Map Text → Outcome (Unit {0})
unfolding valid_entry
validate [] = ok tt
validate ((k, v) ∷ env) = do valid_entry k v; validate env

unfoldable pub check_name : Text → Outcome (Unit {0})
check_name name =
    if length name == 0
    then err (invalid_request (codes "Service name may not be empty"))
    else if ltb 255 (length name)
    then err (invalid_request (codes "Service name may not be longer than 255 bytes"))
    else ok tt

unfoldable pub new_service : ServiceConfig → ServiceManager → Service
new_service config m = record {
  config = config;
  state = record {
    status = ServiceStatus.stopped;
    logs = record { queue = new m.log_retention_lines; writer = none };
    automatic_restart_attempts = 0;
    liveness_probe = none;
    publisher = record { latest = Api.ServiceStatus.stopped; sent = [] };
  };
}

unfoldable pub add_service :
    Text → ServiceConfig → ServiceManager → Option Service → Step (Unit {0})
unfolding new_service
add_service name config m (some s) = (err (service_exists name), m)
add_service name config m none =
    (ok tt, record m { services = Map.insert name (new_service config m) m.services })

unfoldable pub created :
    Text → ServiceConfig → ServiceManager → Outcome (Unit {0}) → Step (Unit {0})
unfolding add_service
created name config m (err e) = (err e, m)
created name config m panic = (panic, m)
created name config m (ok u) = add_service name config m (Map.get name m.services)

unfoldable pub create_service : Text → ServiceConfig → ServiceManager → Step (Unit {0})
unfolding created
create_service name config m =
    created name config m
      (do fail_if m.shutdown shutting_down; check_name name; validate config.env)

unfoldable pub get_service : Credentials → Text → ServiceManager → Outcome Service
get_service credentials name m = do
  s ← ok_or (Map.get name m.services) (service_not_found name)
  check_credentials s credentials
  ok s

unfoldable pub get_service_mut : Credentials → Text → ServiceManager → Outcome Service
get_service_mut credentials name m = do
  fail_if (text_eq name bootstrap_name) bootstrap_is_protected
  s ← ok_or (Map.get name m.services) (service_not_found name)
  check_credentials s credentials
  ok s

-- `automatic_restart_attempts` is a `u32`.
attempts : StartReason → ℕ → ℕ
attempts user n = 0
attempts automatic n = min (n + 1) (2 ^ 32 - 1)

unfoldable pub count_attempt : StartReason → Service → Service
unfolding attempts
count_attempt reason s = record s {
  state = record (s.state) {
    automatic_restart_attempts = attempts reason s.state.automatic_restart_attempts;
  };
}

-- `ServiceStatus::Error(err)` is set, and the error is returned.
spawn_error : IoError → Service → World → Outcome (Unit {0}) × Service × World
spawn_error e s w =
    (err (spawn_failed s.config.cmd e.message), set_status (ServiceStatus.error e) s, w)

unfoldable pub launched :
    Text
    → Option Pty
    → Service
    → IoResult (ℕ × Option MonitorCommandSender) × World
    → Outcome (Unit {0}) × Service × World
unfolding spawn_error
launched name pty s (done (pid, monitor_tx), w) =
    let process : ServiceProcess = record { main_pid = pid; monitor_tx = monitor_tx } in
    let (s', w') = restart_probe name (set_status (ServiceStatus.running process pty) s) w in
    (ok tt, s', w')
launched name pty s (failed e, w) = spawn_error e s w

-- `Logs::new_writer`: the writer that a service may have had is aborted.
unfoldable pub new_writer : Service → World → Service × World
new_writer s w = (
  record s {
    state = record (s.state) { logs = record (s.state.logs) { writer = some w.next_id } };
  },
  take_id (emit (spawn_log_writer w.next_id) (abort s.state.logs.writer w)),
)

-- The sink is the log pipe. Where the pipe cannot be made the `expect` panics.
unfoldable pub start_logged :
    Os → Text → Service → World → IoResult (Unit {0}) → Outcome (Unit {0}) × Service × World
unfolding new_writer launched
start_logged os name s w (failed e) = (panic, s, w)
start_logged os name s w (done u) =
    let (s', w') = new_writer s w in launched name none s' (spawn_service os s'.config false w')

-- The sink is the terminal.
unfoldable pub start_pty :
    Os → Text → Service → World → IoResult Pty → Outcome (Unit {0}) × Service × World
unfolding launched spawn_error
start_pty os name s w (failed e) = spawn_error e s w
start_pty os name s w (done pty) = launched name (some pty) s (
    spawn_service os s.config true
      (emit (spawn_log_message (codes "[process connected to pty: " ++ (pty.path ++ codes "]"))) w))

-- `start_service` from the count of the attempts on.
unfoldable pub start :
    Os → Text → StartReason → Service → World → Outcome (Unit {0}) × Service × World
unfolding count_attempt start_logged start_pty
start os name reason s w =
    let s' = count_attempt reason s in
    let w' = take_id w in
    if s.config.pty
    then start_pty os name s' w' (os.open_pty w.next_id)
    else start_logged os name s' w' (os.open_log_pipe w.next_id)

-- Writes what `start` did back.
unfoldable pub started :
    Text → ServiceManager → Outcome (Unit {0}) × Service × World → Step (Unit {0})
started name m (r, s, w) = (r, store name s w m)

unfoldable pub start_service :
    Os → Credentials → Text → StartReason → ServiceManager → Step (Unit {0})
unfolding started get_service
start_service os credentials name reason m =
    if m.shutdown
    then (err shutting_down, m)
    else with_service (get_service credentials name m) m
        (λ s. started name m (start os name reason s m.world))
