-- ===== src/Services/Reap.antt =====
-- `ServiceManager::handle_signal` of beam-init/src/services.rs, and the shutdown that it begins.
use beam_init.Base.{
  ℕ, Bool, true, false, ◌&&◌, ◌||◌, Option, none, some, List, [], ◌∷◌, ◌==◌, if◌then◌else◌,
}
use beam_init.Base.Text.{Text}
use beam_init.Base.Map
use beam_init.Base.Map.{Map}
use beam_init.Api.{ExitStatus}
use beam_init.Services.Types.{
  Credentials, ServiceProcess, AfterStop, stop, prune, restart, PendingKill, ServiceStatus, stopped,
  running, frozen, stopping, exited, error, Service, ServiceManager,
}
use beam_init.Services.Outcome.{ok, err, panic}
use beam_init.Services.Service.{set_status, abort_liveness_probe, abort}
use beam_init.Services.Spawn.{Os}
use beam_init.Services.Manager.{removed, Step, store, start_service}
use beam_init.Services.Lifecycle.{terminate_service_inner}

abbrev pub sigint : ℕ
sigint = 2

abbrev pub sigchld : ℕ
sigchld = 17

-- `Credentials::root`.
abbrev pub root : Credentials
root = record { uid = 0; gid = 0 }

-- The branch of a service that was running or frozen.
unfoldable pub reap_exited : Text → ServiceManager → Service → ExitStatus → ServiceManager
reap_exited name m s status =
    let (s', w) = abort_liveness_probe (set_status (exited status) s) m.world in store name s' w m

unfoldable pub pending_task : Option PendingKill → Option ℕ
pending_task none = none
pending_task (some kill) = some kill.abort_handle

-- `pending_kill.take()` and the aborts, which come before the status changes.
unfoldable pub take_pending : Service → ServiceProcess → AfterStop → Service
take_pending s process after_stop = record s {
  state = record (s.state) { status = stopping process after_stop none };
}

-- What is to happen after the stop. The result of a restart is dropped, but for a panic.
unfoldable pub after_reap : Os → Text → ServiceManager → Service → AfterStop → Step (Unit {0})
after_reap os name m s stop = (ok tt, store name (set_status stopped s) m.world m)
after_reap os name m s prune = (ok tt, removed name s m)
after_reap os name m s (restart reason) = start_service os s.config.credentials name reason m

unfoldable pub reap_stopping :
    Os
    → Text
    → ServiceManager
    → Service
    → ServiceProcess
    → AfterStop
    → Option PendingKill
    → Step (Unit {0})
unfolding after_reap pending_task take_pending
reap_stopping os name m s process after_stop pending =
    let (s', w) =
      abort_liveness_probe (take_pending s process after_stop)
        (abort (pending_task pending) m.world) in
    after_reap os name (store name s' w m) s' after_stop

-- The loop over the services: `next` is the rest of it.
unfoldable pub reap_service :
    Os
    → ℕ
    → ExitStatus
    → Text
    → ServiceManager
    → Service
    → ServiceStatus
    → Step (Unit {0})
    → Step (Unit {0})
unfolding reap_exited
reap_service os pid status name m s (running process pty) next =
    if process.main_pid == pid then (ok tt, reap_exited name m s status) else next
reap_service os pid status name m s (frozen process pty) next =
    if process.main_pid == pid then (ok tt, reap_exited name m s status) else next
reap_service os pid status name m s (stopping process after_stop pending) next =
    let reaped = reap_stopping os name m s process after_stop pending in
    if process.main_pid == pid then reaped else next
reap_service os pid status name m s _ next = next

unfoldable pub reap_in : Os → ℕ → ExitStatus → ServiceManager → Map Service → Step (Unit {0})
reap_in os pid status m [] = (ok tt, m)
reap_in os pid status m ((name, s) ∷ rest) =
    reap_service os pid status name m s s.state.status (reap_in os pid status m rest)

unfoldable pub reap : Os → ℕ → ExitStatus → ServiceManager → Step (Unit {0})
unfolding reap_in
reap os pid status m = reap_in os pid status m m.services

-- The children that `waitpid(-1, WNOHANG)` returns until there is none left. An error of
-- `start_service` goes unnoticed; a panic ends the program.
abbrev pub and_then : Step (Unit {0}) → (ServiceManager → Step (Unit {0})) → Step (Unit {0})
and_then (panic, m) f = (panic, m)
and_then (ok u, m) f = f m
and_then (err e, m) f = f m

unfoldable pub reap_all : Os → List (ℕ × ExitStatus) → ServiceManager → Step (Unit {0})
reap_all os [] m = (ok tt, m)
reap_all os ((pid, status) ∷ children) m = and_then (reap os pid status m) (reap_all os children)

-- An error is printed, and the loop goes on.
unfoldable pub stop_services : Os → List Text → ServiceManager → Step (Unit {0})
stop_services os [] m = (ok tt, m)
stop_services os (name ∷ names) m =
    and_then (terminate_service_inner os root name stop m) (stop_services os names)

unfoldable pub stop_all_services : Os → ServiceManager → Step (Unit {0})
unfolding stop_services
stop_all_services os m = stop_services os (Map.keys m.services) m

unfoldable pub begin_shutdown : Os → ServiceManager → Step (Unit {0})
unfolding stop_all_services
begin_shutdown os m =
    if m.shutdown then (ok tt, m) else stop_all_services os (record m { shutdown = true })

abbrev pub shutdown_signal : Os → ℕ → ServiceManager → Step (Unit {0})
shutdown_signal os signo m =
    if signo == 15 || signo == sigint then begin_shutdown os m else (ok tt, m)

-- `children` is what `waitpid` returns, call by call, if the signal is `SIGCHLD`.
unfoldable pub handle_signal : Os → ℕ → List (ℕ × ExitStatus) → ServiceManager → Step (Unit {0})
unfolding reap_all begin_shutdown
handle_signal os signo children m =
    and_then (if signo == sigchld then reap_all os children m else (ok tt, m))
      (shutdown_signal os signo)

unfoldable pub is_finished : ServiceStatus → Bool
is_finished stopped = true
is_finished (exited status) = true
is_finished (error e) = true
is_finished _ = false

unfoldable pub all_finished : Map Service → Bool
all_finished [] = true
all_finished ((name, s) ∷ services) = is_finished s.state.status && all_finished services

unfoldable pub shutdown_complete : ServiceManager → Bool
unfolding all_finished is_finished
shutdown_complete m = m.shutdown && all_finished m.services
