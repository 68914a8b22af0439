-- ===== src/Server/Command.antt =====
-- `handle_api_command` of beam-init/src/api_impl.rs with its `Command`s.
use beam_init.Base.{ℕ, Bool, true, false, Option, List, [], ◌∷◌, ◌++◌, if◌then◌else◌}
use beam_init.Base.Int.{ℤ}
use beam_init.Base.Text.{Text, text_eq}
use beam_init.Base.Map
use beam_init.Base.Map.{Map}
use beam_init.Api
use beam_init.Api.{CreateService}
use beam_init.Environment.{UserInfo}
use beam_init.Environment
use beam_init.Services.Types.{
  Credentials, ServiceError, ServiceConfig, AfterStop, stop, prune, restart, user, ServiceStatus,
  Service, ServiceManager,
}
use beam_init.Services.Outcome.{Outcome, ok, err, panic, ◌>>=◌}
use beam_init.Services.Service.{api_status}
use beam_init.Services.Spawn.{IoResult, done, failed, Os}
use beam_init.Services.Manager.{Step, bootstrap_name, create_service, start_service, get_service}
use beam_init.Services.Lifecycle.{
  freeze_service, thaw_service, terminate_service, force_kill_service,
}
use beam_init.Services.Query.{
  list_services, notify_pty_attached, notify_pty_detached, signal_service, service_logs,
}
use beam_init.Server.Response.{Body}

pub data Command : Type 0 where
  create : (name : Text) → CreateService → Command
  restart_service : (name : Text) → Command
  stop_service : (name : Text) (prune : Bool) → Command
  freeze thaw show : (name : Text) → Command
  list : Command
  logs : (name : Text) (follow : Bool) → Command
  pty_attached pty_detached : (name : Text) → Command
  send_signal : (name : Text) → ℤ → Command
  force_kill : (name : Text) (token : ℕ) → Command

-- What the program is given by the host: the system calls, its own environment, the users, the
-- files, and the text that `Debug` prints of an error.
pub record Host : Type 0 where
  pub os : Os
  pub vars : Map Text
  pub user_info : ℕ → IoResult (Option UserInfo)
  pub read_file : Text → IoResult Text
  pub debug_text : ServiceError → Text

-- The result of an operation without a value, with the body that answers it.
abbrev pub answer : Step (Unit {0}) → Body → Step Body
answer (ok u, m) body = (ok body, m)
answer (err e, m) body = (err e, m)
answer (panic, m) body = (panic, m)

-- `impl From<&Service> for beam_init_api::Service`.
unfoldable pub api_service : Service → Outcome Api.Service
api_service s = do
  status ← api_status s.state.status
  ok (record {
    cmd = s.config.cmd;
    args = s.config.args;
    status = status;
    automatic_restart_attempts = s.state.automatic_restart_attempts;
    labels = s.config.labels;
  })

unfoldable pub api_statuses : Map ServiceStatus → Outcome (Map Api.ServiceStatus)
api_statuses [] = ok []
api_statuses ((name, status) ∷ rest) = do
  s ← api_status status
  more ← api_statuses rest
  ok ((name, s) ∷ more)

unfoldable pub stop_service_cmd :
    Os → Credentials → Text → AfterStop → ServiceManager → Step (Unit {0})
stop_service_cmd os credentials name after_stop m = elim (get_service credentials name m) [
  | ok s ↦ terminate_service os s.config.credentials name after_stop m
  | err e ↦ (err e, m)
  | panic ↦ (panic, m)
]

-- The environment of a new service: that of the program for the bootstrap service, else the
-- default one of the user, extended by that of the request.
unfoldable pub extended : Map Text → IoResult (Map Text) → Outcome (Map Text)
extended env (done base) = ok (Map.extend base env)
extended env (failed e) = err (ServiceError.build_environment e.message)

unfoldable pub service_env :
    Host → Credentials → Text → Map Text → ServiceManager → Outcome (Map Text)
unfolding extended
service_env host credentials name env m =
    if text_eq name bootstrap_name
    then ok host.vars
    else extended env (
        Environment.build_environment host.user_info host.read_file credentials.uid
          m.user_env_files)

unfoldable pub service_config : Credentials → CreateService → Map Text → ServiceConfig
service_config credentials service env = record {
  cmd = service.cmd;
  args = service.args;
  env = env;
  labels = service.labels;
  liveness = service.liveness;
  pty = service.pty;
  credentials = credentials;
  graceful_termination_period = service.graceful_termination_period;
}

unfoldable pub create_then_start : Os → Credentials → Text → Step (Unit {0}) → Step (Unit {0})
create_then_start os credentials name (ok u, m) = start_service os credentials name user m
create_then_start os credentials name (err e, m) = (err e, m)
create_then_start os credentials name (panic, m) = (panic, m)

unfoldable pub create_with :
    Host
    → Credentials
    → Text
    → CreateService
    → ServiceManager
    → Outcome (Map Text)
    → Step (Unit {0})
unfolding create_then_start
create_with host credentials name service m (ok env) =
    create_then_start host.os credentials name
      (create_service name (service_config credentials service env) m)
create_with host credentials name service m (err e) = (err e, m)
create_with host credentials name service m panic = (panic, m)

unfoldable pub log_text : List Text → Text
log_text [] = []
log_text (line ∷ rest) = line ++ (10 ∷ log_text rest)

unfoldable pub handle_api_command : Host → Command → Credentials → ServiceManager → Step Body
unfolding service_env create_with stop_service_cmd log_text api_service api_statuses
handle_api_command host (create name service) credentials m =
    answer
      (create_with host credentials name service m
        (service_env host credentials name service.env m))
      (Body.created service)
handle_api_command host (restart_service name) credentials m =
    answer (stop_service_cmd host.os credentials name (restart user) m) Body.unit
handle_api_command host (stop_service name is_prune) credentials m =
    answer (stop_service_cmd host.os credentials name (if is_prune then prune else stop) m)
      Body.unit
handle_api_command host (freeze name) credentials m =
    answer (freeze_service credentials name m) Body.unit
handle_api_command host (thaw name) credentials m =
    answer (thaw_service credentials name m) Body.unit
handle_api_command host (show name) credentials m =
    ((do s ← get_service credentials name m; api ← api_service s; ok (Body.service api)), m)
handle_api_command host list credentials m = (
  (do statuses ← api_statuses (list_services credentials m.services); ok (Body.statuses statuses)),
  m,
)
handle_api_command host (logs name true) credentials m =
    ((do s ← get_service credentials name m; ok (Body.log_stream name)), m)
handle_api_command host (logs name false) credentials m =
    ((do lines ← service_logs credentials name m; ok (Body.text (log_text lines))), m)
handle_api_command host (pty_attached name) credentials m =
    answer (notify_pty_attached credentials name m) Body.unit
handle_api_command host (pty_detached name) credentials m =
    answer (notify_pty_detached credentials name m) Body.unit
handle_api_command host (send_signal name sig) credentials m =
    answer (signal_service credentials name sig m) Body.unit
handle_api_command host (force_kill name token) credentials m =
    (ok Body.unit, force_kill_service name token m)
