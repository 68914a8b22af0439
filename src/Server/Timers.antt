-- ===== src/Server/Timers.antt =====
-- What the events of beam-init/src/main.rs can do to kill timers and to monitor processes.
use beam_init.Base.{
  ◌≢◌, ℕ, ◌<◌, ◌≡◌, refl, inl, inr, true, false, Option, none, some, List, [], ◌∷◌, ◌==◌,
  Bool-cases, arith,
}
use beam_init.Base.Text.{Text}
use beam_init.Base.Map
use beam_init.Base.Map.{Map}
use beam_init.Api.{CreateService}
use beam_init.Services.Types.{
  AfterStop, Credentials, ServiceConfig, ServiceError, Service, ServiceManager, ServiceStatus,
  stopping, restart, automatic,
}
use beam_init.Services.Outcome.{Outcome, ok, err, panic}
use beam_init.Services.Spawn.{Os}
use beam_init.Services.Manager.{
  Step, get_service, create_service, created, add_service, new_service, new_manager,
}
use beam_init.Services.Lifecycle.{
  terminate_service, sigkill, force_kill, force_kill_found, force_kill_service,
}
use beam_init.Services.Reap.{root}
use beam_init.Services.Invariant.{get_service-eq-ok}
use beam_init.Services.Growth.{
  AllEncodable, IsPending, token_of, Grows, Grows-refl, Grows-trans, WorldGrows-refl,
  send_signal-WorldGrows, store-Grows, world-Grows,
}
use beam_init.Services.Growth.Start.{start_service-Grows}
use beam_init.Services.Growth.Lifecycle.{
  freeze_service-Grows, thaw_service-Grows, terminate_service-Grows,
}
use beam_init.Services.Growth.Reap.{handle_signal-Grows}
use beam_init.Services.Growth.Query.{
  notify_pty_attached-Grows, notify_pty_detached-Grows, signal_service-Grows,
}
use beam_init.Server.Response.{Body}
use beam_init.Server.Command.{
  Command, Host, create, restart_service, stop_service, freeze, thaw, show, list, logs,
  pty_attached, pty_detached, answer, stop_service_cmd, create_then_start, create_with,
  handle_api_command,
}
use beam_init.Server.Loop.{
  Event, Next, handle_event, round, resume, run, command, pty, signal, probe_failed, wait_service,
  log_failure, probe_answer, continue,
}

-- `ServiceStatus` of a service that waits for this timer.
force_kill-Grows :
    (token : ℕ) (m : ServiceManager) (status : ServiceStatus) → Grows m (force_kill token m status)
unfolding force_kill
force_kill-Grows token m (stopping process after_stop (some kill)) =
    elim (Bool-cases (kill.token == token)) [
      | inl e ↦ simp e (world-Grows m _ (send_signal-WorldGrows process sigkill m.world refl))
      | inr e ↦ simp e (Grows-refl m)
    ]
force_kill-Grows token m _ = Grows-refl m

force_kill_found-Grows :
    (token : ℕ) (m : ServiceManager) (found : Option Service)
    → Grows m (force_kill_found token m found)
unfolding force_kill_found
force_kill_found-Grows token m none = Grows-refl m
force_kill_found-Grows token m (some s) = force_kill-Grows token m s.state.status

answer-Grows :
    (m : ServiceManager) (r : Step (Unit {0})) (body : Body)
    → Grows m r.1
    → Grows m (answer r body).1
answer-Grows m (ok u, n) body g = g
answer-Grows m (err e, n) body g = g
answer-Grows m (panic, n) body g = g

stop_service_cmd-Grows :
    (os : Os) (credentials : Credentials) (name : Text) (after_stop : AfterStop)
    (m : ServiceManager)
    → Grows m (stop_service_cmd os credentials name after_stop m).1
unfolding stop_service_cmd
stop_service_cmd-Grows os credentials name after_stop m =
    elim (get_service credentials name m)
      as (λ r.
        Grows m
          (elim r as (λ x. Step (Unit {0})) [
            | ok s ↦ terminate_service os s.config.credentials name after_stop m
            | err e ↦ (err e, m)
            | panic ↦ (panic, m)
          ]).1) [
            | ok s ↦ terminate_service-Grows os s.config.credentials name after_stop m
            | err e ↦ Grows-refl m
            | panic ↦ Grows-refl m
          ]

add_service-Grows :
    (name : Text) (config : ServiceConfig) (m : ServiceManager) (o : Option Service)
    → Grows m (add_service name config m o).1
unfolding add_service new_service
add_service-Grows name config m (some s) = Grows-refl m
add_service-Grows name config m none =
    store-Grows name _ m.world m (WorldGrows-refl m.world) (λ token h. cc)

created-Grows :
    (name : Text) (config : ServiceConfig) (m : ServiceManager) (r : Outcome (Unit {0}))
    → Grows m (created name config m r).1
unfolding created
created-Grows name config m (err e) = Grows-refl m
created-Grows name config m panic = Grows-refl m
created-Grows name config m (ok u) = add_service-Grows name config m _

create_then_start-Grows :
    (os : Os) (credentials : Credentials) (name : Text) (m : ServiceManager) (r : Step (Unit {0}))
    → Grows m r.1
    → Grows m (create_then_start os credentials name r).1
unfolding create_then_start
create_then_start-Grows os credentials name m (ok u, n) g =
    Grows-trans g (start_service-Grows os credentials name _ n)
create_then_start-Grows os credentials name m (err e, n) g = g
create_then_start-Grows os credentials name m (panic, n) g = g

create_with-Grows :
    (host : Host) (credentials : Credentials) (name : Text) (service : CreateService)
    (m : ServiceManager) (env : Outcome (Map Text))
    → Grows m (create_with host credentials name service m env).1
unfolding create_with create_service
create_with-Grows host credentials name service m (ok env) =
    create_then_start-Grows host.os credentials name m _ (created-Grows name _ m _)
create_with-Grows host credentials name service m (err e) = Grows-refl m
create_with-Grows host credentials name service m panic = Grows-refl m

handle_api_command-Grows :
    (host : Host) (cmd : Command) (credentials : Credentials) (m : ServiceManager)
    → Grows m (handle_api_command host cmd credentials m).1
unfolding handle_api_command
handle_api_command-Grows host (create name service) c m =
    answer-Grows m _ _ (create_with-Grows host c name service m _)
handle_api_command-Grows host (restart_service name) c m =
    answer-Grows m _ _ (stop_service_cmd-Grows host.os c name _ m)
handle_api_command-Grows host (stop_service name is_prune) c m =
    answer-Grows m _ _ (stop_service_cmd-Grows host.os c name _ m)
handle_api_command-Grows host (freeze name) c m = answer-Grows m _ _ (freeze_service-Grows c name m)
handle_api_command-Grows host (thaw name) c m = answer-Grows m _ _ (thaw_service-Grows c name m)
handle_api_command-Grows host (show name) c m = Grows-refl m
handle_api_command-Grows host list c m = Grows-refl m
handle_api_command-Grows host (logs name true) c m = Grows-refl m
handle_api_command-Grows host (logs name false) c m = Grows-refl m
handle_api_command-Grows host (pty_attached name) c m =
    answer-Grows m _ _ (notify_pty_attached-Grows c name m)
handle_api_command-Grows host (pty_detached name) c m =
    answer-Grows m _ _ (notify_pty_detached-Grows c name m)
handle_api_command-Grows host (Command.send_signal name sig) c m =
    answer-Grows m _ _ (signal_service-Grows c name sig m)
handle_api_command-Grows host (Command.force_kill name token) c m =
    unfold force_kill_service in force_kill_found-Grows token m (Map.get name m.services)

log_failure-Grows :
    (host : Host) (name : Text) (e : ServiceError) (m : ServiceManager) (found : Outcome Service)
    → get_service root name m ≡ found
    → Grows m (log_failure host name e m found)
unfolding log_failure
log_failure-Grows host name e m (ok s) h =
    store-Grows name _ m.world m (WorldGrows-refl m.world) (λ token p.
      inl (record { service = s; found = (get_service-eq-ok root name m h).0; waits = p }))
log_failure-Grows host name e m (err _) h = Grows-refl m
log_failure-Grows host name e m panic h = Grows-refl m

probe_answer-Grows :
    (host : Host) (name : Text) (m : ServiceManager) (r : Step (Unit {0}))
    → Grows m r.1
    → Grows m (probe_answer host name r).1
unfolding probe_answer
probe_answer-Grows host name m (err e, n) g =
    Grows-trans g (log_failure-Grows host name e n (get_service root name n) refl)
probe_answer-Grows host name m (ok u, n) g = g
probe_answer-Grows host name m (panic, n) g = g

pub handle_event-Grows :
    (host : Host) (event : Event) (m : ServiceManager) → Grows m (handle_event host event m).2
unfolding handle_event
handle_event-Grows host (command cmd credentials) m =
    handle_api_command-Grows host cmd credentials m
handle_event-Grows host (pty name credentials) m = Grows-refl m
handle_event-Grows host (signal signo children) m = handle_signal-Grows host.os signo children m
handle_event-Grows host (probe_failed name) m =
    probe_answer-Grows host name m _
      (stop_service_cmd-Grows host.os root name (restart automatic) m)
handle_event-Grows host (wait_service name credentials) m = Grows-refl m

resume-Grows :
    (m : ServiceManager) (r : Next × ServiceManager) (f : ServiceManager → Next × ServiceManager)
    → Grows m r.1
    → ((n : ServiceManager) → Grows n (f n).1)
    → Grows m (resume r f).1
unfolding resume
resume-Grows m (continue, n) f g k = Grows-trans g (k n)
resume-Grows m (next, n) f g k = g

run-Grows : (host : Host) (events : List Event) (m : ServiceManager) → Grows m (run host events m).1
unfolding run round
run-Grows host [] m = Grows-refl m
run-Grows host (event ∷ events) m =
    resume-Grows m (round host event m) (run host events) (handle_event-Grows host event m)
      (run-Grows host events)

force_kill-stale :
    (token : ℕ) (m : ServiceManager) (status : ServiceStatus)
    → token_of status ≢ some token
    → force_kill token m status ≡ m
unfolding force_kill
force_kill-stale token m (stopping process after_stop (some kill)) h =
    elim (Bool-cases (kill.token == token)) [
      | inl e ↦ absurd (ground (arith, h, e))
      | inr e ↦ simp e refl
    ]
force_kill-stale token m _ h = refl

force_kill_found-stale :
    (name : Text) (token : ℕ) (m : ServiceManager) (found : Option Service)
    → Map.get name m.services ≡ found
    → ¬ IsPending name token m
    → force_kill_found token m found ≡ m
unfolding force_kill_found
force_kill_found-stale name token m none f h = refl
force_kill_found-stale name token m (some s) f h =
    force_kill-stale token m s.state.status (λ p. h (record { service = s; found = f; waits = p }))

force_kill_service-stale :
    (name : Text) (token : ℕ) (m : ServiceManager)
    → ¬ IsPending name token m
    → force_kill_service name token m ≡ m
unfolding force_kill_service
force_kill_service-stale name token m h =
    force_kill_found-stale name token m (Map.get name m.services) refl h

-- A kill timer never kills a process that was started after the stop that it belongs to: once no
-- service of that name waits for it any more, whatever events follow, and also if the service is
-- started, stopped, pruned or created again, what the timer asks for changes nothing.
pub run-stale :
    (host : Host) (events : List Event) (m : ServiceManager) (name : Text) (token : ℕ)
    → token < m.world.next_id
    → ¬ IsPending name token m
    → force_kill_service name token (run host events m).1 ≡ (run host events m).1
run-stale host events m name token old gone = force_kill_service-stale name token _ (λ p.
    elim ((run-Grows host events m).tokens name token p) [
      | inl q ↦ gone q
      | inr q ↦ omega (arith, old, q)
    ])

-- Whatever events a new manager is given, every command that was sent to a monitor process has a
-- byte that stands for it, so that sending never panics: also the signals that users ask for.
pub run-AllEncodable :
    (host : Host) (files : List Text) (lines : ℕ) (events : List Event)
    → AllEncodable (run host events (new_manager files lines)).1.world.effects
unfolding new_manager
run-AllEncodable host files lines events =
    (run-Grows host events (new_manager files lines)).world.sent tt
