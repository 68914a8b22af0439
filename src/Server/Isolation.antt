-- ===== src/Server/Isolation.antt =====
-- Which services a command of api_impl.rs can change.
use beam_init.Base.{
  ap, ℕ, ◌≡◌, ◌≢◌, ◌∙◌, ◌⊎◌, inl, inr, refl, sym, subst, true, false, some, Option, arith,
  Bool-cases,
}
use beam_init.Base.Text.{Text, text_eq, text_eq→eq, text_eq_refl}
use beam_init.Base.Map
use beam_init.Services.Types.{
  ServiceConfig, Credentials, Service, ServiceManager, ServiceError, AfterStop,
}
use beam_init.Services.Outcome.{Outcome, ok, err, panic}
use beam_init.Services.Service.{check_credentials}
use beam_init.Services.Spawn.{Os}
use beam_init.Services.Manager.{
  Step, with_service, get_service, get_service_mut, bootstrap_name, create_service,
}
use beam_init.Services.Lifecycle.{
  freeze_service, thaw_service, terminate_service, force_kill_service, force_kill, force_kill_found,
}
use beam_init.Services.Query.{notify_pty_attached, notify_pty_detached, signal_service}
use beam_init.Services.Invariant.{get_service-eq-ok, IsValid, IsSafe}
use beam_init.Services.Invariant.Start.{HasLogPipes}
use beam_init.Services.Invariant.Lifecycle.{freeze_service-IsSafe, thaw_service-IsSafe}
use beam_init.Services.Invariant.Create.{create_service_cases}
use beam_init.Services.Invariant.Query.{
  notify_pty_attached-IsSafe, notify_pty_detached-IsSafe, signal_service-IsSafe,
}
use beam_init.Server.Response.{Body}
use beam_init.Server.Command.{
  service_config, Command, Host, handle_api_command, answer, stop_service_cmd, create_with,
  create_then_start, create, restart_service, stop_service, freeze, thaw, show, list, logs,
  pty_attached, pty_detached, send_signal, force_kill as kill_command,
}
use beam_init.Server.Invariant.{stop_service_cmd-IsSafe, create_with-IsSafe, service_env-returns}
use beam_init.Api.{CreateService}
use beam_init.Base.Int.{ℤ}

-- The sender may not change the service: it is the bootstrap service, or it belongs to another
-- user and the sender is not root.
abbrev pub IsForbidden : Credentials → Text → Service → Type 0
IsForbidden credentials name s =
    (name ≡ bootstrap_name) ⊎ ((credentials.uid ≢ 0) × (credentials.uid ≢ s.config.credentials.uid))

abbrev IsError : Outcome Service → Type 0
IsError r = (e : ServiceError) × (r ≡ err e)

get_service_mut-refused :
    (credentials : Credentials) (name : Text) (m : ServiceManager) (s : Service)
    → Map.get name m.services ≡ some s
    → IsForbidden credentials name s
    → IsError (get_service_mut credentials name m)
unfolding get_service_mut check_credentials
get_service_mut-refused credentials name m s found (inl e) =
    (ServiceError.bootstrap_is_protected, rw (e, text_eq_refl bootstrap_name) refl)
get_service_mut-refused credentials name m s found (inr (a, b)) =
    elim (Bool-cases (text_eq name bootstrap_name)) [
      | inl e ↦ (ServiceError.bootstrap_is_protected, rw e refl)
      | inr e ↦ (ServiceError.invalid_credentials, ground arith)
    ]

not_permitted :
    (credentials : Credentials) (s : Service)
    → credentials.uid ≢ 0
    → credentials.uid ≢ s.config.credentials.uid
    → check_credentials s credentials ≢ ok tt
unfolding check_credentials
not_permitted credentials s a b = ground arith

-- The operation leaves the service as it is.
abbrev Spares : Text → ServiceManager → ServiceManager → Type 0
Spares name m n = Map.get name n.services ≡ Map.get name m.services

spared_elsewhere :
    (name k : Text) (m : ServiceManager) (r : Step (Unit {0}))
    → IsSafe name m r
    → (text_eq name k ≡ true → Spares k m r.1)
    → Spares k m r.1
spared_elsewhere name k m r i h = elim (Bool-cases (text_eq name k)) [
  | inl e ↦ h e
  | inr e ↦ i.frame k e
]

with_service-refused :
    (m : ServiceManager) (r : Outcome Service) (f : Service → Step (Unit {0}))
    → IsError r
    → (with_service r m f).1 ≡ m
with_service-refused m r f (e, h) = rw h refl

same-Spares : (k : Text) (m n : ServiceManager) → n ≡ m → Spares k m n
same-Spares k m n h = ap (λ o. Map.get k o.services) h

answer-manager : (r : Step (Unit {0})) (body : Body) → (answer r body).1 ≡ r.1
answer-manager (ok u, m) body = refl
answer-manager (err e, m) body = refl
answer-manager (panic, m) body = refl

answer-Spares :
    (k : Text) (m : ServiceManager) (r : Step (Unit {0})) (body : Body)
    → Spares k m r.1
    → Spares k m (answer r body).1
answer-Spares k m r body h = rw (answer-manager r body) h

-- A request of a client that names this service. `ForceKillService` is no request: only the kill
-- timers send it.
abbrev pub IsRequestFor : Text → Command → Type 0
IsRequestFor k (create n service) = n ≡ k
IsRequestFor k (restart_service n) = n ≡ k
IsRequestFor k (stop_service n is_prune) = n ≡ k
IsRequestFor k (freeze n) = n ≡ k
IsRequestFor k (thaw n) = n ≡ k
IsRequestFor k (show n) = n ≡ k
IsRequestFor k list = ⊥
IsRequestFor k (logs n follow) = n ≡ k
IsRequestFor k (pty_attached n) = n ≡ k
IsRequestFor k (pty_detached n) = n ≡ k
IsRequestFor k (send_signal n sig) = n ≡ k
IsRequestFor k (kill_command n token) = ⊥

module _ (credentials : Credentials) (k : Text) (m : ServiceManager) (s : Service) (v : IsValid m)
    (found : Map.get k m.services ≡ some s) (forbidden : IsForbidden credentials k s) where
  refused : (name : Text) → text_eq name k ≡ true → IsError (get_service_mut credentials name m)
  refused name e =
      subst (λ n. IsError (get_service_mut credentials n m)) (sym (text_eq→eq name k e))
        (get_service_mut-refused credentials k m s found forbidden)

  -- An operation that looks its service up first.
  guarded-Spares :
      (name : Text) (f : Service → Step (Unit {0}))
      → IsSafe name m (with_service (get_service_mut credentials name m) m f)
      → Spares k m (with_service (get_service_mut credentials name m) m f).1
  guarded-Spares name f i =
      spared_elsewhere name k m _ i
        (λ e. same-Spares k m _ (with_service-refused m _ f (refused name e)))

  freeze_service-Spares : (name : Text) → Spares k m (freeze_service credentials name m).1
  unfolding freeze_service
  freeze_service-Spares name = guarded-Spares name _ (freeze_service-IsSafe credentials name m v)

  thaw_service-Spares : (name : Text) → Spares k m (thaw_service credentials name m).1
  unfolding thaw_service
  thaw_service-Spares name = guarded-Spares name _ (thaw_service-IsSafe credentials name m v)

  attached-Spares : (name : Text) → Spares k m (notify_pty_attached credentials name m).1
  unfolding notify_pty_attached
  attached-Spares name = guarded-Spares name _ (notify_pty_attached-IsSafe credentials name m v)

  detached-Spares : (name : Text) → Spares k m (notify_pty_detached credentials name m).1
  unfolding notify_pty_detached
  detached-Spares name = guarded-Spares name _ (notify_pty_detached-IsSafe credentials name m v)

  signal-Spares : (name : Text) (sig : ℤ) → Spares k m (signal_service credentials name sig m).1
  unfolding signal_service
  signal-Spares name sig = guarded-Spares name _ (signal_service-IsSafe credentials name sig m v)

  -- Found with the sender's credentials, the service can only be the bootstrap service.
  stop_service_cmd-refused :
      (os : Os) (after_stop : AfterStop) (r : Outcome Service)
      → get_service credentials k m ≡ r
      → (stop_service_cmd os credentials k after_stop m).1 ≡ m
  unfolding stop_service_cmd terminate_service
  stop_service_cmd-refused os after_stop (ok t) e =
      rw (e, stop_service_cmd)
        (with_service-refused m _ _ (
          get_service_mut-refused t.config.credentials k m t (get_service-eq-ok credentials k m e).0
            (inl (bootstrap_only t e))))
    where
      bootstrap_only : (t : Service) → get_service credentials k m ≡ ok t → k ≡ bootstrap_name
      bootstrap_only t e = elim forbidden [
        | inl b ↦ b
        | inr (a, b) ↦ absurd (
            not_permitted credentials s a b
              (ground (arith, get_service-eq-ok credentials k m e, found)))
      ]
  stop_service_cmd-refused os after_stop (err e') e = rw (e, stop_service_cmd) refl
  stop_service_cmd-refused os after_stop panic e = rw (e, stop_service_cmd) refl

  stop-Spares :
      (os : Os) (name : Text) (after_stop : AfterStop)
      → HasLogPipes os
      → Spares k m (stop_service_cmd os credentials name after_stop m).1
  stop-Spares os name after_stop pipes =
      spared_elsewhere name k m _
        (stop_service_cmd-IsSafe os credentials name after_stop m _ refl pipes v)
        (λ e.
          subst (λ n. Spares k m (stop_service_cmd os credentials n after_stop m).1)
            (sym (text_eq→eq name k e))
            (same-Spares k m _ (stop_service_cmd-refused os after_stop _ refl)))

  create_then_start-refused :
      (os : Os) (config : ServiceConfig)
      → (create_then_start os credentials k (create_service k config m)).1 ≡ m
  unfolding create_then_start
  create_then_start-refused os config = elim (create_service_cases k config m) [
    | inl (e, refused) ↦ rw refused refl
    | inr a ↦ cc (a.vacant)
  ]

  create-Spares :
      (host : Host) (name : Text) (service : CreateService) (env : Outcome (Map.Map Text))
      → HasLogPipes host.os
      → env ≢ panic
      → Spares k m (create_with host credentials name service m env).1
  unfolding create_with
  create-Spares host name service (err e) pipes h = refl
  create-Spares host name service panic pipes h = refl
  create-Spares host name service (ok env) pipes h =
      spared_elsewhere name k m _
        (create_with-IsSafe host credentials name service m (ok env) pipes v h)
        (λ e.
          subst
            (λ n.
              Spares k m
                (create_then_start host.os credentials n
                  (create_service n (service_config credentials service env) m)).1)
            (sym (text_eq→eq name k e)) (same-Spares k m _ (create_then_start-refused host.os _)))

  create_with-refused :
      (host : Host) (service : CreateService) (env : Outcome (Map.Map Text))
      → (create_with host credentials k service m env).1 ≡ m
  unfolding create_with
  create_with-refused host service (ok env) = create_then_start-refused host.os _
  create_with-refused host service (err e) = refl
  create_with-refused host service panic = refl

  guarded-refused :
      (f : Service → Step (Unit {0})) → (with_service (get_service_mut credentials k m) m f).1 ≡ m
  guarded-refused f = with_service-refused m _ f (refused k (text_eq_refl k))

  answer-refused : (r : Step (Unit {0})) (body : Body) → r.1 ≡ m → (answer r body).1 ≡ m
  answer-refused r body h = answer-manager r body ∙ h

  request-refused :
      (host : Host) (command : Command)
      → IsRequestFor k command
      → (handle_api_command host command credentials m).1 ≡ m
  unfolding handle_api_command freeze_service thaw_service notify_pty_attached notify_pty_detached
      signal_service
  request-refused host (create n service) e =
      rw e (answer-refused _ _ (create_with-refused host service _))
  request-refused host (restart_service n) e =
      rw e (answer-refused _ _ (stop_service_cmd-refused host.os _ _ refl))
  request-refused host (stop_service n is_prune) e =
      rw e (answer-refused _ _ (stop_service_cmd-refused host.os _ _ refl))
  request-refused host (freeze n) e = rw e (answer-refused _ _ (guarded-refused _))
  request-refused host (thaw n) e = rw e (answer-refused _ _ (guarded-refused _))
  request-refused host (pty_attached n) e = rw e (answer-refused _ _ (guarded-refused _))
  request-refused host (pty_detached n) e = rw e (answer-refused _ _ (guarded-refused _))
  request-refused host (send_signal n sig) e = rw e (answer-refused _ _ (guarded-refused _))
  request-refused host (kill_command n token) e = elim e [ ]
  request-refused host (show n) e = refl
  request-refused host list e = elim e [ ]
  request-refused host (logs n true) e = refl
  request-refused host (logs n false) e = refl

force_kill-services :
    (token : ℕ) (m : ServiceManager) (found : Option Service)
    → (force_kill_found token m found).services ≡ m.services
unfolding force_kill_found force_kill
force_kill-services token m found = ground arith

handle_api_command-Spares :
    (host : Host) (command : Command) (credentials : Credentials) (m : ServiceManager) (name : Text)
    (s : Service)
    → HasLogPipes host.os
    → IsValid m
    → Map.get name m.services ≡ some s
    → IsForbidden credentials name s
    → Map.get name (handle_api_command host command credentials m).1.services ≡ some s
unfolding handle_api_command
handle_api_command-Spares host (create n service) c m k s pipes v found f =
    answer-Spares k m _ _ (
      create-Spares c k m s v found f host n service _ pipes
        (service_env-returns host c n service.env m))
    ∙ found
handle_api_command-Spares host (restart_service n) c m k s pipes v found f =
    answer-Spares k m _ _ (stop-Spares c k m s v found f host.os n _ pipes) ∙ found
handle_api_command-Spares host (stop_service n is_prune) c m k s pipes v found f =
    answer-Spares k m _ _ (stop-Spares c k m s v found f host.os n _ pipes) ∙ found
handle_api_command-Spares host (freeze n) c m k s pipes v found f =
    answer-Spares k m _ _ (freeze_service-Spares c k m s v found f n) ∙ found
handle_api_command-Spares host (thaw n) c m k s pipes v found f =
    answer-Spares k m _ _ (thaw_service-Spares c k m s v found f n) ∙ found
handle_api_command-Spares host (pty_attached n) c m k s pipes v found f =
    answer-Spares k m _ _ (attached-Spares c k m s v found f n) ∙ found
handle_api_command-Spares host (pty_detached n) c m k s pipes v found f =
    answer-Spares k m _ _ (detached-Spares c k m s v found f n) ∙ found
handle_api_command-Spares host (send_signal n sig) c m k s pipes v found f =
    answer-Spares k m _ _ (signal-Spares c k m s v found f n sig) ∙ found
handle_api_command-Spares host (kill_command n token) c m k s pipes v found f =
    unfold force_kill_service in rw (force_kill-services token m (Map.get n m.services)) found
handle_api_command-Spares host (show n) c m k s pipes v found f = found
handle_api_command-Spares host list c m k s pipes v found f = found
handle_api_command-Spares host (logs n true) c m k s pipes v found f = found
handle_api_command-Spares host (logs n false) c m k s pipes v found f = found

-- If the log pipes can be made and the manager is in order, then no command, whatever it is and
-- whether it succeeds or fails, changes the entry of a service that its sender may not change: the
-- bootstrap service, whoever the sender is, and for a sender other than root the services of other
-- users. A request that names such a service changes nothing at all, and has no effect: no signal
-- is sent, no monitor is told anything and nothing is started.
pub handle_api_command-spares :
    (host : Host) (command : Command) (credentials : Credentials) (m : ServiceManager) (name : Text)
    (s : Service)
    → HasLogPipes host.os
    → IsValid m
    → Map.get name m.services ≡ some s
    → IsForbidden credentials name s
    → (Map.get name (handle_api_command host command credentials m).1.services ≡ some s)
      × (IsRequestFor name command → (handle_api_command host command credentials m).1 ≡ m)
handle_api_command-spares host command credentials m name s pipes v found f = (
  handle_api_command-Spares host command credentials m name s pipes v found f,
  request-refused credentials name m s v found f host command,
)
