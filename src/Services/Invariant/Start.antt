-- ===== src/Services/Invariant/Start.antt =====
-- The invariant of the manager where a service is started (`start_service` of services.rs).
use beam_init.Base.{
  ℕ, subst, ◌≡◌, refl, sym, ◌∙◌, ◌≢◌, Bool, true, false, Option, none, some, arith, if◌then◌else◌,
}
use beam_init.Base.Text.{Text}
use beam_init.Base.Map
use beam_init.Api.{Probe}
use beam_init.Services.Types.{
  Credentials, StartReason, Pty, ServiceStatus, Service, MonitorCommandSender, World,
  ServiceManager, ServiceProcess, ServiceConfig,
}
use beam_init.Services.Outcome.{Outcome, ok, panic}
use beam_init.Services.Service.{
  set_status, api_status, restart_probe, start_probe, check_credentials, take_id,
}
use beam_init.Services.Spawn.{IoResult, done, failed, Os, spawn_service}
use beam_init.Services.Manager.{
  check_name, validate, start, launched, start_pty, start_logged, count_attempt, new_writer,
  started, start_service, get_service,
}
use beam_init.Services.Invariant.{
  is_some, IsGood, IsValidBut, IsSafe, set_status-IsGood, set_status-published, store-IsSafe,
}

-- The pipe of a log can always be made; where it cannot, `start_service` panics.
abbrev pub HasLogPipes : Os → Type 0
HasLogPipes os = (call : ℕ) → os.open_log_pipe call ≡ done tt

-- A service that can be started: no liveness task is left, whatever its status.
pub record IsReady (name : Text) (s : Service) : Type 0 where
  pub named : check_name name ≡ ok tt
  pub env_valid : validate s.config.env ≡ ok tt
  pub idle : s.state.liveness_probe ≡ none

-- What a start leaves behind.
pub record IsStarted (name : Text) (r : Outcome (Unit {0}) × Service × World) : Type 0 where
  pub returns : r.0 ≢ panic
  pub good : IsGood false name r.1

module _ (name : Text) (s : Service) (w : World) (process : ServiceProcess) (pty : Option Pty)
    (ready : IsReady name s) (terminal : is_some pty ≡ s.config.pty)
    (monitored : is_some process.monitor_tx ≡ s.config.pty) where
  start_probe-IsGood :
      (probe : Option Probe)
      → s.config.liveness ≡ probe
      → IsGood false name
          (start_probe probe name (set_status (ServiceStatus.running process pty) s) w).0
  unfolding start_probe set_status
  start_probe-IsGood none e =
      set_status-IsGood (ServiceStatus.running process pty) s ready.named ready.env_valid refl
        (ground (arith, ready.idle)) (terminal, monitored) (λ d. cc)
  start_probe-IsGood (some probe) e = record {
    named = ready.named;
    env_valid = ready.env_valid;
    published = set_status-published (ServiceStatus.running process pty) s refl;
    probed = ground arith;
    connected = (terminal, monitored);
    settled = λ d. cc;
  }

  pub restart_probe-IsGood :
      IsGood false name (restart_probe name (set_status (ServiceStatus.running process pty) s) w).0
  unfolding restart_probe set_status
  restart_probe-IsGood = start_probe-IsGood s.config.liveness refl

-- A monitor comes with a terminal and only then.
spawn_service-monitor :
    (os : Os) (config : ServiceConfig) (has_ctty : Bool) (w : World) {pid : ℕ}
    {tx : Option MonitorCommandSender}
    → (spawn_service os config has_ctty w).0 ≡ done (pid, tx)
    → is_some tx ≡ has_ctty
unfolding spawn_service
spawn_service-monitor os config has_ctty w h = ground arith

-- The end of every start: the outcome of the spawn is written into the service.
launched-IsStarted :
    (name : Text) (pty : Option Pty) (s : Service) (r : IoResult (ℕ × Option MonitorCommandSender))
    (w : World)
    → IsReady name s
    → is_some pty ≡ s.config.pty
    → ((pid : ℕ) (tx : Option MonitorCommandSender)
        → r ≡ done (pid, tx)
        → is_some tx ≡ s.config.pty)
    → IsStarted name (launched name pty s (r, w))
unfolding launched api_status
launched-IsStarted name pty s (done (pid, tx)) w ready t u = record {
  returns = λ e. cc;
  good =
      restart_probe-IsGood name s w (record { main_pid = pid; monitor_tx = tx }) pty ready t
        (u pid tx refl);
}
launched-IsStarted name pty s (failed e) w ready t u = record {
  returns = λ e. cc;
  good =
      set_status-IsGood (ServiceStatus.error e) s ready.named ready.env_valid refl ready.idle tt
        (λ d. cc);
}

start_pty-IsStarted :
    (os : Os) (name : Text) (s : Service) (w : World) (opened : IoResult Pty)
    → IsReady name s
    → s.config.pty ≡ true
    → IsStarted name (start_pty os name s w opened)
unfolding start_pty api_status
start_pty-IsStarted os name s w (failed e) ready wanted = record {
  returns = λ e. cc;
  good =
      set_status-IsGood (ServiceStatus.error e) s ready.named ready.env_valid refl ready.idle tt
        (λ d. cc);
}
start_pty-IsStarted os name s w (done pty) ready wanted =
    launched-IsStarted name (some pty) s _ _ ready (sym wanted)
      (λ pid tx h. spawn_service-monitor os s.config true _ h ∙ sym wanted)

start_logged-IsStarted :
    (os : Os) (name : Text) (s : Service) (w : World)
    → IsReady name s
    → s.config.pty ≡ false
    → IsStarted name (start_logged os name s w (done tt))
unfolding start_logged
start_logged-IsStarted os name s w ready wanted =
    launched-IsStarted name none (new_writer s w).0 _ _
      (record { named = ready.named; env_valid = ready.env_valid; idle = ready.idle }) (sym wanted)
      (λ pid tx h. spawn_service-monitor os s.config false _ h ∙ sym wanted)

IsStarted-if :
    {name : Text} (b : Bool) {x y : Outcome (Unit {0}) × Service × World}
    → (b ≡ true → IsStarted name x)
    → (b ≡ false → IsStarted name y)
    → IsStarted name (if b then x else y)
IsStarted-if true f g = f refl
IsStarted-if false f g = g refl

-- With a pipe for the log, `start` does not panic, and leaves a service in order.
pub start-IsStarted :
    (os : Os) (name : Text) (reason : StartReason) (s : Service) (w : World)
    → HasLogPipes os
    → IsReady name s
    → IsStarted name (start os name reason s w)
unfolding start
start-IsStarted os name reason s w pipes ready =
    IsStarted-if s.config.pty
      (λ e. start_pty-IsStarted os name s' (take_id w) (os.open_pty w.next_id) ready' e)
      (λ e.
        subst (λ opened. IsStarted name (start_logged os name s' (take_id w) opened))
          (sym (pipes w.next_id)) (start_logged-IsStarted os name s' (take_id w) ready' e))
  where
    s' : Service
    s' = count_attempt reason s

    ready' : IsReady name s'
    ready' = record { named = ready.named; env_valid = ready.env_valid; idle = ready.idle }

start_service-eq :
    (os : Os) (credentials : Credentials) (name : Text) (reason : StartReason) (m : ServiceManager)
    {s : Service}
    → m.shutdown ≡ false
    → Map.get name m.services ≡ some s
    → check_credentials s credentials ≡ ok tt
    → start_service os credentials name reason m ≡ started name m (start os name reason s m.world)
unfolding start_service get_service
start_service-eq os credentials name reason m {s} up found permitted =
    rw (up, found, permitted) refl

-- Starting a service that is ready, in a manager whose other services are in order.
pub start_service-IsSafe :
    (os : Os) (credentials : Credentials) (name : Text) (reason : StartReason) (m : ServiceManager)
    {s : Service}
    → HasLogPipes os
    → m.shutdown ≡ false
    → Map.get name m.services ≡ some s
    → check_credentials s credentials ≡ ok tt
    → IsReady name s
    → IsValidBut name m
    → IsSafe name m (start_service os credentials name reason m)
unfolding started
start_service-IsSafe os credentials name reason m {s} pipes up found permitted ready others =
    subst (IsSafe name m) (sym (start_service-eq os credentials name reason m up found permitted)) (
      store-IsSafe name m r.1 r.2 others t.returns
        (subst (λ down. IsGood down name r.1) (sym up) t.good))
  where
    r : Outcome (Unit {0}) × Service × World
    r = start os name reason s m.world

    t : IsStarted name r
    t = start-IsStarted os name reason s m.world pipes ready
