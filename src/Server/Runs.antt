-- ===== src/Server/Runs.antt =====
-- The end of the bootstrap service, and a service that is frozen and thawed, at concrete inputs.
use beam_init.Base.{subst, ◌≢◌, arith, ℕ, ◌≡◌, refl, true, false, none, some, [], ◌∷◌}
use beam_init.Base.Text.{Text, codes, text_eq}
use beam_init.Base.Map
use beam_init.Api
use beam_init.Api.{exit_code}
use beam_init.Logs.{new}
use beam_init.Services.Types.{
  ServiceProcess, exited, running, monitor_pipes, Service, ServiceManager,
}
use beam_init.Services.Outcome.{ok}
use beam_init.Services.Service.{check_credentials, set_status}
use beam_init.Services.Lifecycle.{freeze_service, thaw_service}
use beam_init.Services.Freezing.{thaw_service-freeze_service, IsResumed, signal_to}
use beam_init.Server.Loop.{run}
use beam_init.Server.Examples.{system, alice}
use beam_init.Services.Growth.{IsPending, token_of}
use beam_init.Server.Timers.{run-stale}
use beam_init.Services.Lifecycle.{force_kill_service}
use beam_init.Server.Loop.{probe_failed}
use beam_init.Base.Map.{Map}

abbrev pub process : ℕ → ServiceProcess
process pid = record { main_pid = pid; monitor_tx = some monitor_pipes }

abbrev pub with_pid : ℕ → Service
with_pid pid = record {
  config = record {
    cmd = codes "sleep";
    args = [];
    env = [];
    labels = [];
    liveness = none;
    pty = true;
    credentials = alice;
    graceful_termination_period = 5;
  };
  state = record {
    status = running (process pid) none;
    logs = record { queue = new 2; writer = none };
    automatic_restart_attempts = 1;
    liveness_probe = none;
    publisher = record { latest = Api.ServiceStatus.running pid none; sent = [] };
  };
}

abbrev pub manager : ServiceManager
manager = record {
  services = (codes "bootstrap", with_pid 20) ∷ (codes "web", with_pid 30) ∷ [];
  user_env_files = [];
  log_retention_lines = 2;
  shutdown = false;
  world = record { effects = []; next_id = 3 };
}

-- Services without a terminal.
abbrev bare : ℕ → ServiceProcess
bare pid = record { main_pid = pid; monitor_tx = none }

abbrev plain : ℕ → Service
plain pid = record (with_pid pid) {
  config = record (with_pid pid).config { pty = false };
  state = record (with_pid pid).state { status = running (bare pid) none };
}

abbrev plain_manager : ServiceManager
plain_manager = record manager {
  services = (codes "bootstrap", plain 20) ∷ (codes "web", plain 30) ∷ [];
}

-- The services once `web` has exited.
abbrev after_web : Map Service
after_web =
    (codes "bootstrap", plain 20) ∷ (codes "web", set_status (exited (exit_code 1)) (plain 30)) ∷ []

thaw_service-freeze_service_example :
    ((freeze_service alice (codes "web") manager).0 ≡ ok tt)
    × ((freeze_service alice (codes "web") manager).1.world.effects
        ≡ signal_to (process 30) 19 ∷ [])
    × ((thaw_service alice (codes "web") (freeze_service alice (codes "web") manager).1).0 ≡ ok tt)
    × ((thaw_service alice
          (codes "web")
          (freeze_service alice (codes "web") manager).1).1.world.effects
        ≡ signal_to (process 30) 18 ∷ (freeze_service alice (codes "web") manager).1.world.effects)
    × (t : Service) × (Map.get
          (codes "web")
          (thaw_service alice
            (codes "web")
            (freeze_service alice (codes "web") manager).1).1.services
        ≡ some t)
    × IsResumed (with_pid 30) t (process 30) none 3
unfolding text_eq Map.get check_credentials
thaw_service-freeze_service_example =
    thaw_service-freeze_service alice (codes "web") manager (with_pid 30) (process 30) none refl
      refl refl refl

-- The timer 0 belongs to an earlier stop of the service, whose restart is asked for again.
web-runs : ¬ IsPending (codes "web") 0 manager
unfolding Map.get text_eq
web-runs p = not_waiting p.service (cc p.found) p.waits
  where
    not_waiting : (s : Service) → with_pid 30 ≡ s → token_of s.state.status ≢ some 0
    not_waiting s e = subst (λ t. token_of t.state.status ≢ some 0) e (λ h. cc)

run-stale_example :
    force_kill_service (codes "web") 0 (run system (probe_failed (codes "web") ∷ []) manager).1
    ≡ (run system (probe_failed (codes "web") ∷ []) manager).1
run-stale_example =
    run-stale system (probe_failed (codes "web") ∷ []) manager (codes "web") 0 (omega arith)
      web-runs
