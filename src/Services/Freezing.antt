-- ===== src/Services/Freezing.antt =====
-- `freeze_service` and then `thaw_service` of beam-init/src/services.rs.
use beam_init.Base.{subst, ◌∙◌, ap, List, ◌∷◌, ℕ, ◌≡◌, refl, false, Option, none, some}
use beam_init.Base.Text.{Text, text_eq}
use beam_init.Base.Map
use beam_init.Api.{Probe}
use beam_init.Services.Types.{
  MonitorCommandSender, signal, monitor_command, spawn_liveness_probe, kill_process_group,
  abort_task, Effect, World, Credentials, ServiceProcess, running, frozen, Pty, Service,
  ServiceManager,
}
use beam_init.Services.Outcome.{ok}
use beam_init.Services.Service.{
  take_id, signal_effect, emit, abort, set_status, abort_liveness_probe, check_credentials,
  restart_probe, start_probe, send_signal,
}
use beam_init.Services.Manager.{bootstrap_name, get_service_mut, store}
use beam_init.Services.Lifecycle.{sigcont, sigstop, freeze_service, freeze, thaw_service, thaw}

-- What sends a signal to a process: a command to its monitor, or a signal to its group.
abbrev signal_over : Option MonitorCommandSender → (pid sig : ℕ) → Effect
signal_over none pid sig = kill_process_group pid sig
signal_over (some pipes) pid sig = monitor_command pid (signal sig)

abbrev pub signal_to : ServiceProcess → (sig : ℕ) → Effect
signal_to process sig = signal_over process.monitor_tx process.main_pid sig

abbrev pub aborts : Option ℕ → List Effect → List Effect
aborts none effects = effects
aborts (some task) effects = abort_task task ∷ effects

abbrev pub spawns : Option Probe → ℕ → Text → List Effect → List Effect
spawns none task name effects = effects
spawns (some probe) task name effects = spawn_liveness_probe task name probe ∷ effects

abbrev pub task_of : Option Probe → ℕ → Option ℕ
task_of none task = none
task_of (some probe) task = some task

-- The service `t` is as `s`, running the same process with the same terminal, and its liveness task
-- is `task` if its configuration has a probe.
pub record IsResumed (s t : Service) (process : ServiceProcess) (pty : Option Pty) (task : ℕ)
    : Type 0 where
  pub runs : t.state.status ≡ running process pty
  pub same_config : t.config ≡ s.config
  pub same_logs : t.state.logs ≡ s.state.logs
  pub same_attempts : t.state.automatic_restart_attempts ≡ s.state.automatic_restart_attempts
  pub probed : t.state.liveness_probe ≡ task_of s.config.liveness task

permitted :
    (credentials : Credentials) (name : Text) (m : ServiceManager) (s : Service)
    → text_eq name bootstrap_name ≡ false
    → Map.get name m.services ≡ some s
    → check_credentials s credentials ≡ ok tt
    → get_service_mut credentials name m ≡ ok s
unfolding get_service_mut
permitted credentials name m s b g c = rw (b, g, c) refl

abbrev stopped_probe : Service → Service
stopped_probe s = record s { state = record (s.state) { liveness_probe = none } }

frozen_world : Service → ServiceProcess → World → World
frozen_world s process w = send_signal process sigstop (abort s.state.liveness_probe w)

freeze_service-running :
    (credentials : Credentials) (name : Text) (m : ServiceManager) (s : Service)
    (process : ServiceProcess) (pty : Option Pty)
    → get_service_mut credentials name m ≡ ok s
    → s.state.status ≡ running process pty
    → freeze_service credentials name m ≡ (
      ok tt,
      store name
          (set_status (frozen process pty) (stopped_probe s))
          (frozen_world s process m.world)
          m,
    )
unfolding freeze_service freeze abort_liveness_probe frozen_world
freeze_service-running credentials name m s process pty g r = rw (g, r) refl

probed_again : Text → Service → ServiceProcess → Option Pty → World → Service × World
probed_again name s process pty w =
    restart_probe name (set_status (running process pty) s) (send_signal process sigcont w)

thaw_service-frozen :
    (credentials : Credentials) (name : Text) (m : ServiceManager) (s : Service)
    (process : ServiceProcess) (pty : Option Pty)
    → get_service_mut credentials name m ≡ ok s
    → s.state.status ≡ frozen process pty
    → thaw_service credentials name m ≡ (
      ok tt,
      store name
          (probed_again name s process pty m.world).0
          (probed_again name s process pty m.world).1
          m,
    )
unfolding thaw_service thaw probed_again
thaw_service-frozen credentials name m s process pty g r = rw (g, r) refl

abbrev thawed : Service → ServiceProcess → Option Pty → Service
thawed s process pty =
    set_status (running process pty) (set_status (frozen process pty) (stopped_probe s))

start_probe-IsResumed :
    (name : Text) (s : Service) (process : ServiceProcess) (pty : Option Pty) (w : World)
    (liveness : Option Probe)
    → s.config.liveness ≡ liveness
    → IsResumed s ((start_probe liveness name (thawed s process pty) w).0) process pty w.next_id
unfolding start_probe set_status
start_probe-IsResumed name s process pty w none e = record {
  runs = refl;
  same_config = refl;
  same_logs = refl;
  same_attempts = refl;
  probed = rw e refl;
}
start_probe-IsResumed name s process pty w (some probe) e = record {
  runs = refl;
  same_config = refl;
  same_logs = refl;
  same_attempts = refl;
  probed = rw e refl;
}

start_probe-spawns :
    (name : Text) (s : Service) (w : World) (liveness : Option Probe)
    → (start_probe liveness name s w).1.effects ≡ spawns liveness w.next_id name w.effects
unfolding start_probe emit take_id
start_probe-spawns name s w none = refl
start_probe-spawns name s w (some probe) = refl

signal_effect-signal_over :
    (pipes : Option MonitorCommandSender) (pid sig : ℕ)
    → signal_effect pipes pid sig ≡ signal_over pipes pid sig
unfolding signal_effect
signal_effect-signal_over none pid sig = refl
signal_effect-signal_over (some pipes) pid sig = refl

send_signal-signal_to :
    (process : ServiceProcess) (sig : ℕ) (w : World)
    → send_signal process sig w ≡ record w { effects = signal_to process sig ∷ w.effects }
unfolding send_signal emit
send_signal-signal_to process sig w =
    ap (λ e. record w { effects = e ∷ w.effects })
      (signal_effect-signal_over process.monitor_tx process.main_pid sig)

abort-aborts :
    (task : Option ℕ) (w : World) → abort task w ≡ record w { effects = aborts task w.effects }
unfolding abort emit
abort-aborts none w = refl
abort-aborts (some task) w = refl

frozen_world-eq :
    (s : Service) (process : ServiceProcess) (w : World)
    → frozen_world s process w
      ≡ record w { effects = signal_to process 19 ∷ aborts s.state.liveness_probe w.effects }
unfolding frozen_world
frozen_world-eq s process w =
    ap (send_signal process sigstop) (abort-aborts s.state.liveness_probe w)
    ∙ send_signal-signal_to process sigstop
        (record w { effects = aborts s.state.liveness_probe w.effects })

-- A user who may change a running service and freezes and then thaws it finds it as it was: the same
-- process and terminal, configuration and log, and if liveness is configured it is probed by a new
-- task. What is done meanwhile: freezing ends the old liveness task and sends the process SIGSTOP,
-- and thawing sends it SIGCONT and starts the new task, and nothing else.
pub thaw_service-freeze_service :
    (credentials : Credentials) (name : Text) (m : ServiceManager) (s : Service)
    (process : ServiceProcess) (pty : Option Pty)
    → text_eq name bootstrap_name ≡ false
    → Map.get name m.services ≡ some s
    → check_credentials s credentials ≡ ok tt
    → s.state.status ≡ running process pty
    → ((freeze_service credentials name m).0 ≡ ok tt)
      × ((freeze_service credentials name m).1.world.effects
          ≡ signal_to process 19 ∷ aborts s.state.liveness_probe m.world.effects)
      × ((thaw_service credentials name (freeze_service credentials name m).1).0 ≡ ok tt)
      × ((thaw_service credentials name (freeze_service credentials name m).1).1.world.effects
          ≡ spawns s.config.liveness m.world.next_id name
              (signal_to process 18 ∷ (freeze_service credentials name m).1.world.effects))
      × (t : Service) × (Map.get name
            (thaw_service credentials name (freeze_service credentials name m).1).1.services
          ≡ some t)
      × IsResumed s t process pty m.world.next_id
unfolding restart_probe set_status check_credentials probed_again
thaw_service-freeze_service credentials name m s process pty b g c r =
    let w = frozen_world s process m.world in
    let f =
      freeze_service-running credentials name m s process pty (permitted credentials name m s b g c)
        r in
    let u : Service = set_status (frozen process pty) (stopped_probe s) in
    let n : ServiceManager = store name u w m in
    let t =
      thaw_service-frozen credentials name n u process pty
        (permitted credentials name n u b (Map.get-insert_self name u m.services) c) refl in
    let stops = frozen_world-eq s process m.world in
    let goes = send_signal-signal_to process sigcont w in
    rw (f, t)
      (
        refl,
        ap (λ v. v.effects) stops,
        refl,
        start_probe-spawns name (thawed s process pty) (send_signal process sigcont w)
              s.config.liveness
            ∙ ap (λ v. spawns s.config.liveness v.next_id name v.effects) goes
            ∙ ap (λ v. spawns s.config.liveness v.next_id name (signal_to process 18 ∷ w.effects))
                stops,
        (restart_probe name (thawed s process pty) (send_signal process sigcont w)).0,
        Map.get-insert_self name _ n.services,
        subst
            (IsResumed s
              ((restart_probe name (thawed s process pty) (send_signal process sigcont w)).0)
              process pty)
            (ap (λ v. v.next_id) goes ∙ ap (λ v. v.next_id) stops)
            (start_probe-IsResumed name s process pty (send_signal process sigcont w)
              s.config.liveness refl),
      )
