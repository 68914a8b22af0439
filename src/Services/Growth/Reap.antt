-- ===== src/Services/Growth/Reap.antt =====
-- How signals and the shutdown change the manager (beam-init/src/services.rs).
use beam_init.Base.{ℕ, refl, true, Option, List, [], ◌∷◌, ◌==◌, ◌||◌}
use beam_init.Base.Text.{Text}
use beam_init.Base.Map
use beam_init.Base.Map.{Map}
use beam_init.Api.{ExitStatus}
use beam_init.Services.Types.{
  ServiceProcess, PendingKill, AfterStop, stop, prune, restart, ServiceStatus, running, frozen,
  stopping, stopped, Service, ServiceManager,
}
use beam_init.Services.Outcome.{ok, err, panic}
use beam_init.Services.Service.{set_status, abort_liveness_probe}
use beam_init.Services.Spawn.{Os}
use beam_init.Services.Manager.{Step}
use beam_init.Services.Reap.{
  reap_exited, pending_task, take_pending, after_reap, reap_stopping, reap_service, reap_in, reap,
  and_then, reap_all, stop_services, stop_all_services, begin_shutdown, shutdown_signal,
  handle_signal, root, sigint, sigchld,
}
use beam_init.Services.Growth.{
  Grows-down, WorldGrows-refl, WorldGrows-trans, abort-WorldGrows, Grows, Grows-refl, Grows-trans,
  Grows-if, store-Grows, removed-Grows,
}
use beam_init.Services.Growth.Start.{start_service-Grows}
use beam_init.Services.Growth.Lifecycle.{set_status-Grows, terminate_service_inner-Grows}

reap_exited-Grows :
    (name : Text) (m : ServiceManager) (s : Service) (status : ExitStatus)
    → Grows m (reap_exited name m s status)
unfolding reap_exited abort_liveness_probe set_status
reap_exited-Grows name m s status =
    store-Grows name _ _ m (abort-WorldGrows s.state.liveness_probe m.world) (λ token h. cc)

after_reap-Grows :
    (os : Os) (name : Text) (m : ServiceManager) (s : Service) (after_stop : AfterStop)
    → Grows m (after_reap os name m s after_stop).1
unfolding after_reap
after_reap-Grows os name m s stop =
    set_status-Grows name stopped s m.world m refl (WorldGrows-refl m.world)
after_reap-Grows os name m s prune = removed-Grows name s m
after_reap-Grows os name m s (restart reason) =
    start_service-Grows os s.config.credentials name reason m

reap_stopping-Grows :
    (os : Os) (name : Text) (m : ServiceManager) (s : Service) (process : ServiceProcess)
    (after_stop : AfterStop) (pending : Option PendingKill)
    → Grows m (reap_stopping os name m s process after_stop pending).1
unfolding reap_stopping abort_liveness_probe take_pending
reap_stopping-Grows os name m s process after_stop pending =
    Grows-trans
      (store-Grows name _ _ m
        (WorldGrows-trans (abort-WorldGrows (pending_task pending) m.world)
          (abort-WorldGrows s.state.liveness_probe _))
        (λ token h. cc))
      (after_reap-Grows os name _ _ after_stop)

reap_service-Grows :
    (os : Os) (pid : ℕ) (status : ExitStatus) (name : Text) (m : ServiceManager) (s : Service)
    (before : ServiceStatus) (next : Step (Unit {0}))
    → Grows m next.1
    → Grows m (reap_service os pid status name m s before next).1
unfolding reap_service
reap_service-Grows os pid status name m s (running process pty) next g =
    Grows-if (process.main_pid == pid) _ _ (reap_exited-Grows name m s status) g
reap_service-Grows os pid status name m s (frozen process pty) next g =
    Grows-if (process.main_pid == pid) _ _ (reap_exited-Grows name m s status) g
reap_service-Grows os pid status name m s (stopping process after_stop pending) next g =
    Grows-if (process.main_pid == pid) _ _
      (reap_stopping-Grows os name m s process after_stop pending) g
reap_service-Grows os pid status name m s before next g = g

reap_in-Grows :
    (os : Os) (pid : ℕ) (status : ExitStatus) (m : ServiceManager) (rest : Map Service)
    → Grows m (reap_in os pid status m rest).1
unfolding reap_in
reap_in-Grows os pid status m [] = Grows-refl m
reap_in-Grows os pid status m ((name, s) ∷ rest) =
    reap_service-Grows os pid status name m s s.state.status _ (reap_in-Grows os pid status m rest)

and_then-Grows :
    {m : ServiceManager} (r : Step (Unit {0})) (f : ServiceManager → Step (Unit {0}))
    → Grows m r.1
    → ((n : ServiceManager) → Grows n (f n).1)
    → Grows m (and_then r f).1
and_then-Grows (ok u, n) f g k = Grows-trans g (k n)
and_then-Grows (err e, n) f g k = Grows-trans g (k n)
and_then-Grows (panic, n) f g k = g

reap_all-Grows :
    (os : Os) (children : List (ℕ × ExitStatus)) (m : ServiceManager)
    → Grows m (reap_all os children m).1
unfolding reap_all reap
reap_all-Grows os [] m = Grows-refl m
reap_all-Grows os ((pid, status) ∷ children) m =
    and_then-Grows _ (reap_all os children) (reap_in-Grows os pid status m m.services)
      (reap_all-Grows os children)

stop_services-Grows :
    (os : Os) (names : List Text) (m : ServiceManager) → Grows m (stop_services os names m).1
unfolding stop_services
stop_services-Grows os [] m = Grows-refl m
stop_services-Grows os (name ∷ names) m =
    and_then-Grows _ (stop_services os names) (terminate_service_inner-Grows os root name stop m)
      (stop_services-Grows os names)

begin_shutdown-Grows : (os : Os) (m : ServiceManager) → Grows m (begin_shutdown os m).1
unfolding begin_shutdown stop_all_services
begin_shutdown-Grows os m =
    Grows-if m.shutdown _ _ (Grows-refl m)
      (Grows-down m (stop_services-Grows os (Map.keys m.services) (record m { shutdown = true })))

pub handle_signal-Grows :
    (os : Os) (signo : ℕ) (children : List (ℕ × ExitStatus)) (m : ServiceManager)
    → Grows m (handle_signal os signo children m).1
unfolding handle_signal
handle_signal-Grows os signo children m =
    and_then-Grows _ (shutdown_signal os signo)
      (Grows-if (signo == sigchld) _ _ (reap_all-Grows os children m) (Grows-refl m))
      (λ n.
        Grows-if (signo == 15 || signo == sigint) _ _ (begin_shutdown-Grows os n) (Grows-refl n))
