-- ===== src/Services/Query.antt =====
-- `impl ServiceManager` of beam-init/src/services.rs: the operations that leave every status as it
-- is: listing, terminals, signals, subscriptions and logs.
use beam_init.Base.{
  ℕ, ◌+◌, Bool, true, false, ◌||◌, Option, none, some, List, [], ◌∷◌, ◌++◌, ◌==◌, leb,
  if◌then◌else◌,
}
use beam_init.Base.Int.{ℤ, pos, negsuc}
use beam_init.Base.Text.{Text, codes}
use beam_init.Base.Decimal.{decimal}
use beam_init.Base.Map.{Map}
use beam_init.Api
use beam_init.Logs.{copy_logs}
use beam_init.Services.Types.{
  ServiceStatusPublisher, Credentials, ServiceError, no_pty, invalid_request, too_many_open_files,
  Pty, ServiceStatus, running, frozen, stopping, dummy, Service, MonitorCommand, foreground,
  background, monitor_command, MonitorCommandSender, World, ServiceManager,
}
use beam_init.Services.Outcome.{Outcome, ok, err, panic, ◌>>=◌}
use beam_init.Services.Service.{emit, check_credentials, send_signal}
use beam_init.Services.Spawn.{Os, IoResult, done, failed}
use beam_init.Services.Manager.{Step, with_service, get_service, get_service_mut}

unfoldable pub is_permitted : Outcome (Unit {0}) → Bool
is_permitted (ok u) = true
is_permitted _ = false

unfoldable pub list_services : Credentials → Map Service → Map ServiceStatus
unfolding is_permitted
list_services credentials [] = []
list_services credentials ((name, s) ∷ services) =
    let rest = list_services credentials services in
    if is_permitted (check_credentials s credentials) then (name, s.state.status) ∷ rest else rest

-- `EMFILE` of Linux.
abbrev emfile : ℕ
emfile = 24

unfoldable pub too_many_files : Option ℕ → Bool
too_many_files none = false
too_many_files (some code) = code == emfile

-- `pty.master.try_clone()`.
unfoldable pub cloned : IoResult ℕ → Outcome ℕ
unfolding too_many_files
cloned (done fd) = ok fd
cloned (failed e) = if too_many_files e.raw_os_error then err too_many_open_files else panic

unfoldable pub pty_of : Os → Text → World → Option Pty → Outcome ℕ
unfolding cloned
pty_of os name w none = err (no_pty name)
pty_of os name w (some pty) = cloned (os.clone_pty w.next_id)

unfoldable pub status_pty : Os → Text → World → ServiceStatus → Outcome ℕ
unfolding pty_of
status_pty os name w (running process pty) = pty_of os name w pty
status_pty os name w (frozen process pty) = pty_of os name w pty
status_pty os name w dummy = panic
status_pty os name w _ = err (no_pty name)

-- The result is a descriptor of the master end.
unfoldable pub get_pty : Os → Credentials → Text → ServiceManager → Outcome ℕ
unfolding status_pty
get_pty os credentials name m = do
  s ← get_service credentials name m
  status_pty os name m.world s.state.status

unfoldable pub tell_monitor : Option MonitorCommandSender → ℕ → MonitorCommand → World → World
unfolding emit
tell_monitor none pid command w = w
tell_monitor (some pipes) pid command w = emit (monitor_command pid command) w

unfoldable pub notify : MonitorCommand → ServiceManager → ServiceStatus → Step (Unit {0})
unfolding tell_monitor
notify command m (running process pty) =
    (ok tt, record m { world = tell_monitor process.monitor_tx process.main_pid command m.world })
notify command m (frozen process pty) =
    (ok tt, record m { world = tell_monitor process.monitor_tx process.main_pid command m.world })
notify command m dummy = (panic, m)
notify command m _ = (ok tt, m)

unfoldable pub notify_pty_attached : Credentials → Text → ServiceManager → Step (Unit {0})
unfolding notify
notify_pty_attached credentials name m =
    with_service (get_service_mut credentials name m) m (λ s. notify foreground m s.state.status)

unfoldable pub notify_pty_detached : Credentials → Text → ServiceManager → Step (Unit {0})
unfolding notify
notify_pty_detached credentials name m =
    with_service (get_service_mut credentials name m) m (λ s. notify background m s.state.status)

display_int : ℤ → Text
display_int (pos n) = decimal n
display_int (negsuc n) = b'-' ∷ decimal (n + 1)

invalid_signal : ℤ → ServiceError
unfolding display_int
invalid_signal sig = invalid_request (codes "Signal " ++ (display_int sig ++ codes " is not valid"))

unfoldable pub signalled : ℕ → ServiceManager → ServiceStatus → Step (Unit {0})
signalled sig m (running process pty) =
    (ok tt, record m { world = send_signal process sig m.world })
signalled sig m (frozen process pty) = (ok tt, record m { world = send_signal process sig m.world })
signalled sig m (stopping process after_stop pending) =
    (ok tt, record m { world = send_signal process sig m.world })
signalled sig m dummy = (panic, m)
signalled sig m _ = (ok tt, m)

-- `sig <= 0 || sig >= 32` is refused.
unfoldable pub deliver : ℤ → ServiceManager → Service → Step (Unit {0})
unfolding signalled invalid_signal
deliver (pos sig) m s =
    if sig == 0 || leb 32 sig
    then (err (invalid_signal (pos sig)), m)
    else signalled sig m s.state.status
deliver (negsuc n) m s = (err (invalid_signal (negsuc n)), m)

-- `ServiceManager::send_signal`.
unfoldable pub signal_service : Credentials → Text → ℤ → ServiceManager → Step (Unit {0})
unfolding deliver
signal_service credentials name sig m =
    with_service (get_service_mut credentials name m) m (deliver sig m)

-- A `ServiceStatusSubscription`: the status at its start, and how much of what the publisher sent
-- came before it.
pub record ServiceStatusSubscription : Type 0 where
  pub current : Option Api.ServiceStatus
  pub before : List Api.ServiceStatus

-- `ServiceStatusPublisher::subscribe`.
unfoldable pub subscription_of : ServiceStatusPublisher → ServiceStatusSubscription
subscription_of p = record { current = some p.latest; before = p.sent }

-- `ServiceManager::subscribe`.
unfoldable pub subscribe : Credentials → Text → ServiceManager → Outcome ServiceStatusSubscription
subscribe credentials name m = do
  s ← get_service credentials name m
  ok (subscription_of s.state.publisher)

-- `ServiceManager::copy_logs`.
unfoldable pub service_logs : Credentials → Text → ServiceManager → Outcome (List Text)
service_logs credentials name m = do
  s ← get_service credentials name m
  ok (copy_logs s.state.logs.queue)
