-- ===== src/Server/Invariant.antt =====
-- The commands of beam-init/src/api_impl.rs and the invariant of the service manager.
use beam_init.Base.{
  if◌then◌else◌, inr, inl, ℕ, ◌≡◌, ◌≢◌, refl, true, false, Bool, some, none, Option, [], ◌∷◌, arith,
  ◌==◌,
}
use beam_init.Base.Text.{Text}
use beam_init.Base.Map
use beam_init.Base.Map.{get-insert_self, get-insert_self, Map}
use beam_init.Base.Sorted.{HasEntry, here, there, get-entry}
use beam_init.Services.Service
use beam_init.Services.Lifecycle.{sigkill}
use beam_init.Services.Types.{World}
use beam_init.Server.Command.{log_text}
use beam_init.Services.Types.{
  ServiceConfig, Credentials, Service, ServiceManager, ServiceStatus, AfterStop, user, stopping,
}
use beam_init.Services.Outcome.{◌>>=◌, Outcome, ok, err, panic}
use beam_init.Services.Service.{api_status, check_credentials}
use beam_init.Services.Spawn.{Os}
use beam_init.Services.Manager.{
  validate, check_name, new_service, Step, get_service, create_service,
}
use beam_init.Services.Lifecycle.{force_kill_service, force_kill, force_kill_found}
use beam_init.Services.Query.{list_services, service_logs}
use beam_init.Services.Invariant.{
  IsValidBut-store, IsSafe-store, same-IsSafe, IsValid, IsValid-but, IsSafe, get_service-eq-ok,
}
use beam_init.Services.Invariant.Start.{IsReady, HasLogPipes, start_service-IsSafe}
use beam_init.Services.Invariant.Lifecycle.{
  freeze_service-IsSafe, thaw_service-IsSafe, terminate_service-IsSafe,
}
use beam_init.Services.Invariant.Create.{create_service_cases}
use beam_init.Services.Invariant.Query.{
  notify_pty_attached-IsSafe, notify_pty_detached-IsSafe, signal_service-IsSafe,
}
use beam_init.Server.Response.{Body}
use beam_init.Server.Command.{
  service_config, Command, Host, handle_api_command, answer, stop_service_cmd, create_with,
  create_then_start, service_env, api_statuses, api_service, create, restart_service, stop_service,
  freeze, thaw, show, list, logs, pty_attached, pty_detached, send_signal,
  force_kill as kill_command,
}
use beam_init.Api.{CreateService}

-- The outcome of a command.
pub record IsServed (m : ServiceManager) (r : Step Body) : Type 0 where
  pub returns : r.0 ≢ panic
  pub flag : r.1.shutdown ≡ m.shutdown
  pub valid : IsValid r.1

pub answer-IsServed :
    (name : Text) (m : ServiceManager) (r : Step (Unit {0})) (body : Body)
    → IsSafe name m r
    → IsServed m (answer r body)
answer-IsServed name m (ok u, n) body i = record {
  returns = λ e. cc;
  flag = i.flag;
  valid = i.valid;
}
answer-IsServed name m (err e, n) body i = record {
  returns = λ e. cc;
  flag = i.flag;
  valid = i.valid;
}
answer-IsServed name m (panic, n) body i = absurd (i.returns refl)

read-IsServed : (m : ServiceManager) {r : Outcome Body} → IsValid m → r ≢ panic → IsServed m (r, m)
read-IsServed m v h = record { returns = h; flag = refl; valid = v }

pub get_service-returns :
    (credentials : Credentials) (name : Text) (m : ServiceManager)
    → get_service credentials name m ≢ panic
unfolding get_service check_credentials
get_service-returns credentials name m = ground arith

pub stop_service_cmd-IsSafe :
    (os : Os) (credentials : Credentials) (name : Text) (after_stop : AfterStop)
    (m : ServiceManager) (r : Outcome Service)
    → get_service credentials name m ≡ r
    → HasLogPipes os
    → IsValid m
    → IsSafe name m (stop_service_cmd os credentials name after_stop m)
unfolding stop_service_cmd
stop_service_cmd-IsSafe os credentials name after_stop m (ok s) e pipes v =
    rw (e, stop_service_cmd)
      (terminate_service-IsSafe os s.config.credentials name after_stop m pipes v)
stop_service_cmd-IsSafe os credentials name after_stop m (err e') e pipes v =
    rw (e, stop_service_cmd) (same-IsSafe name v (λ p. cc))
stop_service_cmd-IsSafe os credentials name after_stop m panic e pipes v =
    absurd (get_service-returns credentials name m e)

own :
    (credentials : Credentials) (s : Service)
    → s.config.credentials ≡ credentials
    → check_credentials s credentials ≡ ok tt
unfolding check_credentials
own credentials s e = ground arith

new_service-IsReady :
    (name : Text) (config : ServiceConfig) (m : ServiceManager)
    → check_name name ≡ ok tt
    → validate config.env ≡ ok tt
    → IsReady name (new_service config m)
unfolding new_service
new_service-IsReady name config m n c = record { named = n; env_valid = c; idle = refl }

new_service-permitted :
    (credentials : Credentials) (config : ServiceConfig) (m : ServiceManager)
    → config.credentials ≡ credentials
    → check_credentials (new_service config m) credentials ≡ ok tt
unfolding new_service
new_service-permitted credentials config m e = own credentials _ e

create_then_start-IsSafe :
    (os : Os) (credentials : Credentials) (name : Text) (config : ServiceConfig)
    (m : ServiceManager)
    → HasLogPipes os
    → IsValid m
    → config.credentials ≡ credentials
    → IsSafe name m (create_then_start os credentials name (create_service name config m))
unfolding create_then_start
create_then_start-IsSafe os credentials name config m pipes v c =
    elim (create_service_cases name config m) [
      | inl (e, refused) ↦ rw refused (same-IsSafe name v (λ p. cc))
      | inr a ↦ rw a.added (
          IsSafe-store name m (new_service config m) m.world (
            start_service-IsSafe os credentials name user _ pipes a.up
              (get-insert_self name (new_service config m) m.services)
              (new_service-permitted credentials config m c)
              (new_service-IsReady name config m a.named a.env_valid)
              (IsValidBut-store name m (new_service config m) m.world (IsValid-but name v))))
    ]

pub create_with-IsSafe :
    (host : Host) (credentials : Credentials) (name : Text) (service : CreateService)
    (m : ServiceManager) (env : Outcome (Map Text))
    → HasLogPipes host.os
    → IsValid m
    → env ≢ panic
    → IsSafe name m (create_with host credentials name service m env)
unfolding create_with service_config
create_with-IsSafe host credentials name service m (ok env) pipes v h =
    create_then_start-IsSafe host.os credentials name (service_config credentials service env) m
      pipes v refl
create_with-IsSafe host credentials name service m (err e) pipes v h = same-IsSafe name v (λ p. cc)
create_with-IsSafe host credentials name service m panic pipes v h = absurd (h refl)

pub service_env-returns :
    (host : Host) (credentials : Credentials) (name : Text) (env : Map Text) (m : ServiceManager)
    → service_env host credentials name env m ≢ panic
unfolding service_env
service_env-returns host credentials name env m = ground arith

-- Every status that is listed can be converted.
api_statuses-returns :
    (credentials : Credentials) (services : Map Service)
    → ((k : Text) (s : Service) → HasEntry k s services → api_status s.state.status ≢ panic)
    → api_statuses (list_services credentials services) ≢ panic
unfolding api_statuses list_services
api_statuses-returns credentials [] h = λ e. cc
api_statuses-returns credentials ((name, s) ∷ services) h =
    ground
      (arith, h name s here, api_statuses-returns credentials services (λ k t e. h k t (there e)))

list-returns :
    (credentials : Credentials) (services : Map Service)
    → ((k : Text) (s : Service) → HasEntry k s services → api_status s.state.status ≢ panic)
    → (api_statuses (list_services credentials services) >>= λ statuses.
        ok (Body.statuses statuses))
      ≢ panic
list-returns credentials services h = ground (arith, api_statuses-returns credentials services h)

logs-returns :
    (credentials : Credentials) (name : Text) (m : ServiceManager)
    → (service_logs credentials name m >>= λ lines. ok (Body.text (log_text lines))) ≢ panic
unfolding service_logs
logs-returns credentials name m = ground (arith, get_service-returns credentials name m)

show-returns :
    (credentials : Credentials) (name : Text) (m : ServiceManager)
    → IsValid m
    → (get_service credentials name m >>= λ s. api_service s >>= λ api. ok (Body.service api))
      ≢ panic
unfolding api_service
show-returns credentials name m v = go (get_service credentials name m) refl
  where
    go :
        (r : Outcome Service)
        → get_service credentials name m ≡ r
        → (r >>= λ s. api_service s >>= λ api. ok (Body.service api)) ≢ panic
    go (ok s) h =
        let g = v.each name s (get_service-eq-ok credentials name m h).0 in
        rw (g.published, api_service) (λ e. cc)
    go (err e) h = λ p. cc
    go panic h = absurd (get_service-returns credentials name m h)

world-IsServed :
    (m : ServiceManager) (w : World) (b : Bool)
    → IsValid m
    → IsServed m (ok Body.unit, if b then record m { world = w } else m)
world-IsServed m w true v = record {
  returns = λ e. cc;
  flag = refl;
  valid = record { sorted = v.sorted; each = v.each };
}
world-IsServed m w false v = read-IsServed m v (λ e. cc)

force_kill-IsServed :
    (token : ℕ) (m : ServiceManager) (status : ServiceStatus)
    → IsValid m
    → IsServed m (ok Body.unit, force_kill token m status)
unfolding force_kill
force_kill-IsServed token m (stopping process after_stop (some kill)) v =
    world-IsServed m (Service.send_signal process sigkill m.world) (kill.token == token) v
force_kill-IsServed token m _ v = read-IsServed m v (λ e. cc)

pub force_kill_found-IsServed :
    (token : ℕ) (m : ServiceManager) (found : Option Service)
    → IsValid m
    → IsServed m (ok Body.unit, force_kill_found token m found)
unfolding force_kill_found
force_kill_found-IsServed token m none v = read-IsServed m v (λ e. cc)
force_kill_found-IsServed token m (some s) v = force_kill-IsServed token m s.state.status v

-- Whatever the command and whoever sends it, the handler answers, and the manager stays in order.
pub handle_api_command-IsServed :
    (host : Host) (command : Command) (credentials : Credentials) (m : ServiceManager)
    → HasLogPipes host.os
    → IsValid m
    → IsServed m (handle_api_command host command credentials m)
unfolding handle_api_command
handle_api_command-IsServed host (create name service) c m pipes v = answer-IsServed name m _ _ (
    create_with-IsSafe host c name service m _ pipes v
      (service_env-returns host c name service.env m))
handle_api_command-IsServed host (restart_service name) c m pipes v =
    answer-IsServed name m _ _ (stop_service_cmd-IsSafe host.os c name _ m _ refl pipes v)
handle_api_command-IsServed host (stop_service name is_prune) c m pipes v =
    answer-IsServed name m _ _ (stop_service_cmd-IsSafe host.os c name _ m _ refl pipes v)
handle_api_command-IsServed host (freeze name) c m pipes v =
    answer-IsServed name m _ _ (freeze_service-IsSafe c name m v)
handle_api_command-IsServed host (thaw name) c m pipes v =
    answer-IsServed name m _ _ (thaw_service-IsSafe c name m v)
handle_api_command-IsServed host (show name) c m pipes v =
    read-IsServed m v (show-returns c name m v)
handle_api_command-IsServed host list c m pipes v =
    read-IsServed m v
      (list-returns c m.services (λ k s e h. cc ((v.each k s (get-entry e v.sorted)).published)))
handle_api_command-IsServed host (logs name true) c m pipes v =
    read-IsServed m v (ground (arith, get_service-returns c name m))
handle_api_command-IsServed host (logs name false) c m pipes v =
    read-IsServed m v (logs-returns c name m)
handle_api_command-IsServed host (pty_attached name) c m pipes v =
    answer-IsServed name m _ _ (notify_pty_attached-IsSafe c name m v)
handle_api_command-IsServed host (pty_detached name) c m pipes v =
    answer-IsServed name m _ _ (notify_pty_detached-IsSafe c name m v)
handle_api_command-IsServed host (send_signal name sig) c m pipes v =
    answer-IsServed name m _ _ (signal_service-IsSafe c name sig m v)
handle_api_command-IsServed host (kill_command name token) c m pipes v =
    unfold force_kill_service in force_kill_found-IsServed token m (Map.get name m.services) v
