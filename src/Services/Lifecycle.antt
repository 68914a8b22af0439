-- ===== src/Services/Lifecycle.antt =====
-- `impl ServiceManager` of beam-init/src/services.rs: freezing, thawing and terminating services.
-- `mem::replace(&mut service.state.status, ServiceStatus::Dummy)` leaves the dummy status in the
-- service until the branch sets another one; where a branch calls `start_service`, the manager
-- that it is given holds the dummy.
use beam_init.Base.{ℕ, ◌+◌, ◌&&◌, Option, none, some, ◌==◌, if◌then◌else◌}
use beam_init.Base.Text.{Text}
use beam_init.Base.Map
use beam_init.Base.Map.{Map}
use beam_init.Services.Types.{
  Credentials, service_not_found, shutting_down, AfterStop, stop, prune, restart, ServiceProcess,
  PendingKill, ServiceStatus, running, frozen, stopping, dummy, Service, World, spawn_kill_timer,
  ServiceManager,
}
use beam_init.Services.Outcome.{ok, err, panic, ok_or}
use beam_init.Services.Service.{
  emit, take_id, set_status, abort_liveness_probe, restart_probe, send_signal, merge, is_restart,
}
use beam_init.Services.Spawn.{Os}
use beam_init.Services.Manager.{removed, Step, store, with_service, get_service_mut, start_service}

abbrev pub sigkill : ℕ
sigkill = 9

abbrev pub sigterm : ℕ
sigterm = 15

abbrev pub sigcont : ℕ
sigcont = 18

abbrev pub sigstop : ℕ
sigstop = 19

unfoldable pub freeze : Text → ServiceManager → Service → ServiceStatus → Step (Unit {0})
freeze name m s (running process pty) =
    let (s', w) = abort_liveness_probe s m.world in
    (ok tt, store name (set_status (frozen process pty) s') (send_signal process sigstop w) m)
freeze name m s dummy = (panic, m)
freeze name m s status = (ok tt, store name (set_status status s) m.world m)

unfoldable pub freeze_service : Credentials → Text → ServiceManager → Step (Unit {0})
unfolding freeze
freeze_service credentials name m =
    with_service (get_service_mut credentials name m) m (λ s. freeze name m s s.state.status)

unfoldable pub thaw : Text → ServiceManager → Service → ServiceStatus → Step (Unit {0})
thaw name m s (frozen process pty) =
    let (s', w) =
      restart_probe name (set_status (running process pty) s)
        (send_signal process sigcont m.world) in
    (ok tt, store name s' w m)
thaw name m s dummy = (panic, m)
thaw name m s status = (ok tt, store name (set_status status s) m.world m)

unfoldable pub thaw_service : Credentials → Text → ServiceManager → Step (Unit {0})
unfolding thaw
thaw_service credentials name m =
    with_service (get_service_mut credentials name m) m (λ s. thaw name m s s.state.status)

abbrev pub with_status : ServiceStatus → Service → Service
with_status status s = record s { state = record (s.state) { status = status } }

-- No process is running.
unfoldable pub terminate_idle :
    Os → Credentials → Text → ServiceManager → Service → ServiceStatus → AfterStop → Step (Unit {0})
terminate_idle os credentials name m s status stop =
    (ok tt, store name (set_status status s) m.world m)
terminate_idle os credentials name m s status prune = (ok tt, removed name s m)
terminate_idle os credentials name m s status (restart reason) =
    start_service os credentials name reason (store name (with_status dummy s) m.world m)

-- The kill that follows the `SIGTERM` at once, or after `period` seconds.
unfoldable pub schedule_kill :
    Credentials → Text → ServiceProcess → ℕ → World → Option PendingKill × World
schedule_kill credentials name process period w =
    if period == 0 then (none, send_signal process sigkill w) else (
      some (record { token = w.next_id; abort_handle = w.next_id + 1 }),
      emit (spawn_kill_timer (w.next_id + 1) w.next_id name period credentials)
          (take_id (take_id w)),
    )

unfoldable pub terminate_running :
    Credentials → Text → ServiceManager → Service → ServiceProcess → AfterStop → ServiceManager
unfolding schedule_kill
terminate_running credentials name m s process requested =
    let (s', w) = abort_liveness_probe s m.world in
    let (pending, w') =
      schedule_kill credentials name process s.config.graceful_termination_period
        (send_signal process sigterm w) in
    store name (set_status (stopping process requested pending) s') w' m

unfoldable pub terminate :
    Os → Credentials → Text → ServiceManager → AfterStop → Service → ServiceStatus → Step (Unit {0})
unfolding terminate_idle terminate_running
terminate os credentials name m requested s (stopping process after_stop pending) = (
  ok tt,
  store name (set_status (stopping process (merge after_stop requested) pending) s) m.world m,
)
terminate os credentials name m requested s (frozen process pty) = (
  ok tt,
  store name (set_status (stopping process requested none) s) (send_signal process sigkill m.world)
      m,
)
terminate os credentials name m requested s (running process pty) =
    (ok tt, terminate_running credentials name m s process requested)
terminate os credentials name m requested s dummy = (panic, m)
terminate os credentials name m requested s status =
    terminate_idle os credentials name m s status requested

unfoldable pub terminate_service_inner :
    Os → Credentials → Text → AfterStop → ServiceManager → Step (Unit {0})
unfolding terminate
terminate_service_inner os credentials name requested m =
    with_service (ok_or (Map.get name m.services) (service_not_found name)) m
      (λ s. terminate os credentials name m requested s s.state.status)

unfoldable pub terminate_service :
    Os → Credentials → Text → AfterStop → ServiceManager → Step (Unit {0})
unfolding terminate_service_inner get_service_mut
terminate_service os credentials name intent m =
    with_service (get_service_mut credentials name m) m (λ s.
      if m.shutdown && is_restart intent
      then (err shutting_down, m)
      else terminate_service_inner os credentials name intent m)

unfoldable pub force_kill : ℕ → ServiceManager → ServiceStatus → ServiceManager
force_kill token m (stopping process after_stop (some kill)) =
    if kill.token == token then record m { world = send_signal process sigkill m.world } else m
force_kill token m _ = m

unfoldable pub force_kill_found : ℕ → ServiceManager → Option Service → ServiceManager
unfolding force_kill
force_kill_found token m none = m
force_kill_found token m (some s) = force_kill token m s.state.status

unfoldable pub force_kill_service : Text → ℕ → ServiceManager → ServiceManager
unfolding force_kill_found
force_kill_service name token m = force_kill_found token m (Map.get name m.services)
