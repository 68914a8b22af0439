-- ===== src/Services/Service.antt =====
-- `impl Service`, `impl AfterStop`, `impl ServiceProcess` and `ServiceStatusPublisher` of
-- beam-init/src/services.rs, and the conversion of a status for the API of api_impl.rs.
use beam_init.Base.{
  ℕ, ◌+◌, Bool, true, false, not, ◌&&◌, Option, none, some, ◌∷◌, ◌==◌, if◌then◌else◌,
}
use beam_init.Base.Text.{Text}
use beam_init.Api
use beam_init.Api.{Probe, status_eq}
use beam_init.Services.Types.{
  Credentials, invalid_credentials, AfterStop, stop, prune, restart, automatic, ServiceProcess, Pty,
  ServiceStatus, stopped, running, frozen, stopping, exited, error, dummy, ServiceStatusPublisher,
  Service, signal, Effect, monitor_command, kill_process_group, abort_task, World,
  MonitorCommandSender,
}
use beam_init.Services.Outcome.{Outcome, ok, panic, fail_if}

unfoldable pub emit : Effect → World → World
emit e w = record w { effects = e ∷ w.effects }

-- A new identity; the old `next_id` is the one that is given out.
unfoldable pub take_id : World → World
take_id w = record w { next_id = w.next_id + 1 }

unfoldable pub check_credentials : Service → Credentials → Outcome (Unit {0})
check_credentials s credentials =
    fail_if (not (credentials.uid == 0) && not (credentials.uid == s.config.credentials.uid))
      invalid_credentials

unfoldable pub pty_path : Option Pty → Option Text
pty_path none = none
pty_path (some pty) = some pty.path

unfoldable pub is_prune : AfterStop → Bool
is_prune prune = true
is_prune stop = false
is_prune (restart reason) = false

unfoldable pub is_restart : AfterStop → Bool
is_restart (restart reason) = true
is_restart stop = false
is_restart prune = false

-- `impl From<&ServiceStatus> for beam_init_api::ServiceStatus`; `Dummy` is `unreachable!()`.
unfoldable pub api_status : ServiceStatus → Outcome Api.ServiceStatus
unfolding pty_path is_prune is_restart
api_status stopped = ok Api.ServiceStatus.stopped
api_status (running process pty) = ok (Api.ServiceStatus.running process.main_pid (pty_path pty))
api_status (frozen process pty) = ok (Api.ServiceStatus.frozen process.main_pid (pty_path pty))
api_status (stopping process after_stop pending_kill) =
    ok (Api.ServiceStatus.stopping process.main_pid (is_prune after_stop) (is_restart after_stop))
api_status (exited status) = ok (Api.ServiceStatus.exited status)
api_status (error err) = ok (Api.ServiceStatus.error err.message)
api_status dummy = panic

unfoldable pub publish : Api.ServiceStatus → ServiceStatusPublisher → ServiceStatusPublisher
publish status p =
    if status_eq p.latest status then p else record { latest = status; sent = status ∷ p.sent }

published : Outcome Api.ServiceStatus → ServiceStatusPublisher → ServiceStatusPublisher
unfolding publish
published (ok status) p = publish status p
published _ p = p

-- No caller hands `dummy` over, for which the conversion would panic.
unfoldable pub set_status : ServiceStatus → Service → Service
unfolding api_status published
set_status status s = record s {
  state = record (s.state) {
    status = status;
    publisher = published (api_status status) s.state.publisher;
  };
}

-- The effect of aborting a task, if there is one.
unfoldable pub abort : Option ℕ → World → World
unfolding emit
abort none w = w
abort (some task) w = emit (abort_task task) w

unfoldable pub abort_liveness_probe : Service → World → Service × World
unfolding abort
abort_liveness_probe s w = (
  record s { state = record (s.state) { liveness_probe = none } },
  abort s.state.liveness_probe w,
)

unfoldable pub start_probe : Option Probe → Text → Service → World → Service × World
unfolding emit take_id
start_probe none name s w = (s, w)
start_probe (some probe) name s w = (
  record s { state = record (s.state) { liveness_probe = some w.next_id } },
  take_id (emit (Effect.spawn_liveness_probe w.next_id name probe) w),
)

-- `Service::spawn_liveness_probe`.
unfoldable pub restart_probe : Text → Service → World → Service × World
unfolding start_probe
restart_probe name s w = start_probe s.config.liveness name s w

unfoldable pub signal_effect : Option MonitorCommandSender → ℕ → ℕ → Effect
signal_effect (some pipes) pid sig = monitor_command pid (signal sig)
signal_effect none pid sig = kill_process_group pid sig

-- `ServiceProcess::send_signal`. A process that has not been waited for exists, so that the
-- `expect` on the result holds.
unfoldable pub send_signal : ServiceProcess → ℕ → World → World
unfolding emit signal_effect
send_signal process sig w = emit (signal_effect process.monitor_tx process.main_pid sig) w

unfoldable pub merge : AfterStop → AfterStop → AfterStop
merge prune requested = prune
merge current prune = prune
merge current (restart automatic) = current
merge current requested = requested
