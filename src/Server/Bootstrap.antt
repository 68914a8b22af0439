-- ===== src/Server/Bootstrap.antt =====
-- How the event loop of beam-init/src/main.rs ends with the bootstrap service.
pub mod Children
use beam_init.Base.{
  ap, subst₂, ℕ, ◌≡◌, ◌≢◌, refl, ◌∙◌, sym, inl, inr, false, Option, none, some, List, [], ◌∷◌,
  Bool-cases, arith,
}
use beam_init.Base.Text.{Text, text_eq, text_eq→eq}
use beam_init.Base.Map
use beam_init.Base.Map.{Map}
use beam_init.Base.Sorted.{HasEntry, here, there}
use beam_init.Api.{ExitStatus, exit_code, exit_signal}
use beam_init.Services.Types.{
  Pty, ServiceProcess, ServiceStatus, running, frozen, stopping, stopped, exited, error, dummy,
  Service, ServiceManager,
}
use beam_init.Services.Outcome.{ok}
use beam_init.Services.Service.{set_status, abort_liveness_probe, check_credentials}
use beam_init.Services.Manager.{Step, bootstrap_name, get_service}
use beam_init.Services.Spawn.{Os}
use beam_init.Services.Invariant.Others.{pid_of, reap_service-other}
use beam_init.Services.Reap.{
  reap, reap_in, reap_service, reap_exited, reap_all, handle_signal, shutdown_complete, sigchld,
}
use beam_init.Server.Command.{Host}
use beam_init.Server.Loop.{
  Event, Next, exit, exit_with_signal, run, round, resume, handle_event, after_event,
  bootstrap_next, bootstrap_exit, is_panic,
}

-- A process that is not being stopped.
pub data Lives (process : ServiceProcess) : ServiceStatus → Type 0 where
  runs : {pty : Option Pty} → Lives process (running process pty)
  is_frozen : {pty : Option Pty} → Lives process (frozen process pty)

abbrev pub ending : ExitStatus → Next
ending (exit_code code) = exit code
ending (exit_signal sig core_dumped) = exit_with_signal sig

-- Only the service `name` has the process `pid`.
abbrev pub IsOnly : ℕ → Text → Map Service → Type 0
IsOnly pid name services =
    (k : Text) (t : Service)
    → HasEntry k t services
    → text_eq k name ≡ false
    → pid_of t.state.status ≢ some pid

module _ (os : Os) (pid : ℕ) (status : ExitStatus) (m : ServiceManager) where
  reap_service-Lives :
      (name : Text) (s : Service) (process : ServiceProcess) (st : ServiceStatus)
      (next : Step (Unit {0}))
      → Lives process st
      → process.main_pid ≡ pid
      → reap_service os pid status name m s st next ≡ (ok tt, reap_exited name m s status)
  unfolding reap_service
  reap_service-Lives name s process st next runs e = ground (arith, e)
  reap_service-Lives name s process st next is_frozen e = ground (arith, e)

  pub reap_in-Lives :
      (name : Text) (s : Service) (process : ServiceProcess) (services : Map Service)
      → Map.get name services ≡ some s
      → IsOnly pid name services
      → Lives process s.state.status
      → process.main_pid ≡ pid
      → reap_in os pid status m services ≡ (ok tt, reap_exited name m s status)
  unfolding reap_in Map.get
  reap_in-Lives name s process [] g o l e = absurd (ground (arith, g))
  reap_in-Lives name s process ((k, t) ∷ services) g o l e = elim (Bool-cases (text_eq k name)) [
    | inl q ↦
        let r : s ≡ t = ground (arith, g, q) in
        subst₂
          (λ j u.
            reap_service os pid status j m u u.state.status (reap_in os pid status m services)
            ≡ (ok tt, reap_exited name m s status))
          (sym (text_eq→eq k name q)) r (reap_service-Lives name s process s.state.status _ l e)
    | inr q ↦
        reap_service-other os pid status m k t t.state.status (reap_in os pid status m services)
          (o k t here q)
        ∙ reap_in-Lives name s process services (ground (arith, g, q))
            (λ j u entry d. o j u (there entry) d) l e
  ]

handle_signal-Lives :
    (os : Os) (pid : ℕ) (status : ExitStatus) (m : ServiceManager) (name : Text) (s : Service)
    (process : ServiceProcess)
    → Map.get name m.services ≡ some s
    → Lives process s.state.status
    → process.main_pid ≡ pid
    → IsOnly pid name m.services
    → handle_signal os sigchld ((pid, status) ∷ []) m ≡ (ok tt, reap_exited name m s status)
unfolding handle_signal reap_all reap
handle_signal-Lives os pid status m name s process found lives e only =
    rw (reap_in-Lives os pid status m name s process m.services found only lives e) refl

after_event-reap_exited :
    (m : ServiceManager) (s : Service) (status : ExitStatus)
    → m.shutdown ≡ false
    → after_event (reap_exited bootstrap_name m s status) ≡ ending status
unfolding after_event shutdown_complete reap_exited abort_liveness_probe set_status get_service
    check_credentials bootstrap_next bootstrap_exit
after_event-reap_exited m s (exit_code code) down =
    rw (down, Map.get-insert_self bootstrap_name) refl
after_event-reap_exited m s (exit_signal sig core_dumped) down =
    rw (down, Map.get-insert_self bootstrap_name) refl

pub resume-ending :
    (status : ExitStatus) (m : ServiceManager) (f : ServiceManager → Next × ServiceManager)
    → resume (ending status, m) f ≡ (ending status, m)
unfolding resume
resume-ending (exit_code code) m f = refl
resume-ending (exit_signal sig core_dumped) m f = refl

pub run-reap_exited :
    (host : Host) (pid : ℕ) (status : ExitStatus) (m : ServiceManager) (s : Service)
    (process : ServiceProcess) (events : List Event)
    → m.shutdown ≡ false
    → Map.get bootstrap_name m.services ≡ some s
    → Lives process s.state.status
    → process.main_pid ≡ pid
    → IsOnly pid bootstrap_name m.services
    → run host (Event.signal sigchld ((pid, status) ∷ []) ∷ events) m
      ≡ (ending status, reap_exited bootstrap_name m s status)
unfolding run round handle_event is_panic
run-reap_exited host pid status m s process events down found lives e only =
    rw
      (
        handle_signal-Lives host.os pid status m bootstrap_name s process found lives e only,
        after_event-reap_exited m s status down,
      )
      (resume-ending status (reap_exited bootstrap_name m s status) (run host events))
