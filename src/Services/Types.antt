-- ===== src/Services/Types.antt =====
-- The data of beam-init/src/services.rs, with `Credentials` of api_impl.rs.
-- What belongs to the operating system and to tokio is seen through the calls that the code makes
-- of it: a list of effects, and numbers that stand for the identity of tasks and of `Arc`s.
use beam_init.Base.{ℕ, Bool, Option, List}
use beam_init.Base.Text.{Text}
use beam_init.Base.Map.{Map}
use beam_init.Api
use beam_init.Api.{Probe, ExitStatus}
use beam_init.Logs.{RingBuffer}

pub record Credentials : Type 0 where
  pub uid : ℕ
  pub gid : ℕ

-- `io::Error`: the code of the operating system, if it has one, and its text.
pub record IoError : Type 0 where
  pub raw_os_error : Option ℕ
  pub message : Text

pub data ServiceError : Type 0 where
  no_pty : (name : Text) → ServiceError
  service_not_found : (name : Text) → ServiceError
  service_exists : (name : Text) → ServiceError
  spawn_failed : (cmd err : Text) → ServiceError
  invalid_credentials : ServiceError
  invalid_request : (err : Text) → ServiceError
  build_environment : (err : Text) → ServiceError
  bootstrap_is_protected : ServiceError
  service_pruned_while_waiting : ServiceError
  observation_lagged : (skipped : ℕ) → ServiceError
  shutting_down : ServiceError
  too_many_open_files : ServiceError

pub record ServiceConfig : Type 0 where
  pub cmd : Text
  pub args : List Text
  pub env : Map Text
  pub labels : Map Text
  pub liveness : Option Probe
  pub pty : Bool
  pub credentials : Credentials
  pub graceful_termination_period : ℕ

pub data StartReason : Type 0 where
  user automatic : StartReason

pub data AfterStop : Type 0 where
  stop prune : AfterStop
  restart : StartReason → AfterStop

-- The two ends of the pipes to a monitor process; their content is not looked at.
pub data MonitorCommandSender : Type 0 where
  monitor_pipes : MonitorCommandSender

pub record ServiceProcess : Type 0 where
  pub main_pid : ℕ
  pub monitor_tx : Option MonitorCommandSender

-- The path of the terminal; the descriptor of its master end is not looked at.
pub record Pty : Type 0 where
  pub path : Text

-- `token` is the identity of the `Arc` of a `TerminationToken`, `abort_handle` that of the task
-- that will ask for the kill.
pub record PendingKill : Type 0 where
  pub token : ℕ
  pub abort_handle : ℕ

pub data ServiceStatus : Type 0 where
  stopped : ServiceStatus
  running : ServiceProcess → Option Pty → ServiceStatus
  frozen : ServiceProcess → Option Pty → ServiceStatus
  stopping : ServiceProcess → AfterStop → Option PendingKill → ServiceStatus
  exited : ExitStatus → ServiceStatus
  error : IoError → ServiceStatus
  dummy : ServiceStatus

-- `sent` is what was handed to the broadcast channel, the newest first.
pub record ServiceStatusPublisher : Type 0 where
  pub latest : Api.ServiceStatus
  pub sent : List Api.ServiceStatus

-- `writer` is `Logs::abort_handle`, the task that reads the log pipe.
pub record Logs : Type 0 where
  pub queue : RingBuffer
  pub writer : Option ℕ

pub record ServiceState : Type 0 where
  pub status : ServiceStatus
  pub logs : Logs
  pub automatic_restart_attempts : ℕ
  pub liveness_probe : Option ℕ
  pub publisher : ServiceStatusPublisher

pub record Service : Type 0 where
  pub config : ServiceConfig
  pub state : ServiceState

pub data MonitorCommand : Type 0 where
  signal : ℕ → MonitorCommand
  foreground background : MonitorCommand

-- What the manager does to the world, call by call.
pub data Effect : Type 0 where
  monitor_command : (main_pid : ℕ) → MonitorCommand → Effect
  kill_process_group : (pgid signal : ℕ) → Effect
  abort_task : (task : ℕ) → Effect
  spawn_liveness_probe : (task : ℕ) (name : Text) → Probe → Effect
  spawn_kill_timer : (task token : ℕ) (name : Text) (seconds : ℕ) → Credentials → Effect
  fork_service : (argv envp : List Text) (has_ctty : Bool) → Credentials → Effect
  spawn_log_writer : (task : ℕ) → Effect
  spawn_log_message : Text → Effect

-- `effects` is the newest first; `next_id` is an identity that no task or `Arc` has had.
pub record World : Type 0 where
  pub effects : List Effect
  pub next_id : ℕ

-- `shutdown` is whether the cancellation token is cancelled.
pub record ServiceManager : Type 0 where
  pub services : Map Service
  pub user_env_files : List Text
  pub log_retention_lines : ℕ
  pub shutdown : Bool
  pub world : World
