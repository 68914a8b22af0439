-- ===== src/Services/Invariant/Lifecycle.antt =====
-- The invariant of the manager where services are frozen, thawed and terminated (services.rs).
use beam_init.Base.{◌≡◌, refl, inl, inr, true, false, Option, none, some, arith, Bool-cases, ◌&&◌}
use beam_init.Base.Text.{Text}
use beam_init.Base.Map
use beam_init.Base.Map.{get-insert_self}
use beam_init.Services.Types.{
  Credentials, ServiceProcess, Pty, PendingKill, AfterStop, stop, prune, restart, ServiceStatus,
  stopped, running, frozen, stopping, exited, error, dummy, Service, ServiceManager,
}
use beam_init.Services.Outcome.{ok}
use beam_init.Services.Service.{
  send_signal, api_status, set_status, restart_probe, check_credentials, is_restart, merge,
  abort_liveness_probe,
}
use beam_init.Services.Spawn.{Os}
use beam_init.Services.Lifecycle.{
  freeze, freeze_service, thaw, thaw_service, terminate, terminate_idle, terminate_running,
  terminate_service_inner, terminate_service, with_status, sigcont, sigterm, schedule_kill,
}
use beam_init.Services.Invariant.{
  ok_or-eq-ok, ok_or-returns, IsSafe-if, IsGoodAs, IsValid, IsValidBut, IsValid-but,
  IsValidBut-store, IsSafe, set_status-IsGood, reset-IsGood, IsGood-up, store-IsSafe, remove-IsSafe,
  same-IsSafe, IsSafe-store, with_service-IsSafe, get_service_mut-returns, get_service_mut-eq-ok,
}
use beam_init.Services.Invariant.Start.{HasLogPipes, restart_probe-IsGood, start_service-IsSafe}

freeze-IsSafe :
    (name : Text) (m : ServiceManager) (s : Service) (status : ServiceStatus)
    → IsValid m
    → IsGoodAs m.shutdown name s status
    → IsSafe name m (freeze name m s status)
unfolding freeze abort_liveness_probe api_status
freeze-IsSafe name m s (running process pty) v g =
    store-IsSafe name m _ _ (IsValid-but name v) (λ e. cc)
      (set_status-IsGood (frozen process pty) (abort_liveness_probe s m.world).0 g.named g.env_valid
        refl refl g.connected g.settled)
freeze-IsSafe name m s dummy v g = cc g.published
freeze-IsSafe name m s status v g =
    store-IsSafe name m _ _ (IsValid-but name v) (λ e. cc) (reset-IsGood status s g)

pub freeze_service-IsSafe :
    (credentials : Credentials) (name : Text) (m : ServiceManager)
    → IsValid m
    → IsSafe name m (freeze_service credentials name m)
unfolding freeze_service
freeze_service-IsSafe credentials name m v =
    with_service-IsSafe name m _ _ v (get_service_mut-returns credentials name m) λ s h.
      freeze-IsSafe name m s s.state.status v
        (v.each name s (get_service_mut-eq-ok credentials name m h).1)

thaw-IsSafe :
    (name : Text) (m : ServiceManager) (s : Service) (status : ServiceStatus)
    → IsValid m
    → IsGoodAs m.shutdown name s status
    → IsSafe name m (thaw name m s status)
unfolding thaw api_status
thaw-IsSafe name m s (frozen process pty) v g = elim (Bool-cases m.shutdown) [
  | inl down ↦ absurd (g.settled down)
  | inr up ↦
      store-IsSafe name m _ _ (IsValid-but name v) (λ e. cc)
        (IsGood-up m
          (restart_probe name (set_status (running process pty) s)
            (send_signal process sigcont m.world)).0
          up
          (restart_probe-IsGood name s _ process pty
            (record { named = g.named; env_valid = g.env_valid; idle = g.probed }) g.connected.0
            g.connected.1))
]
thaw-IsSafe name m s dummy v g = cc g.published
thaw-IsSafe name m s status v g =
    store-IsSafe name m _ _ (IsValid-but name v) (λ e. cc) (reset-IsGood status s g)

pub thaw_service-IsSafe :
    (credentials : Credentials) (name : Text) (m : ServiceManager)
    → IsValid m
    → IsSafe name m (thaw_service credentials name m)
unfolding thaw_service
thaw_service-IsSafe credentials name m v =
    with_service-IsSafe name m _ _ v (get_service_mut-returns credentials name m) λ s h.
      thaw-IsSafe name m s s.state.status v
        (v.each name s (get_service_mut-eq-ok credentials name m h).1)

-- A restart is asked for by someone who may, and not during a shutdown.
pub record IsAllowed (m : ServiceManager) (credentials : Credentials) (requested : AfterStop)
    (s : Service) : Type 0 where
  pub up : is_restart requested ≡ true → m.shutdown ≡ false
  pub permitted : is_restart requested ≡ true → check_credentials s credentials ≡ ok tt

merge_settled :
    (current requested : AfterStop)
    → is_restart current ≡ false
    → is_restart requested ≡ false
    → is_restart (merge current requested) ≡ false
unfolding merge is_restart
merge_settled prune requested h k = refl
merge_settled stop stop h k = refl
merge_settled _ _ h k = ground arith

terminate_idle-IsSafe :
    (os : Os) (credentials : Credentials) (name : Text) (m : ServiceManager) (s : Service)
    (status : ServiceStatus) (requested : AfterStop)
    → HasLogPipes os
    → IsValidBut name m
    → IsGoodAs m.shutdown name s status
    → s.state.liveness_probe ≡ none
    → IsAllowed m credentials requested s
    → IsSafe name m (terminate_idle os credentials name m s status requested)
unfolding terminate_idle is_restart check_credentials
terminate_idle-IsSafe os credentials name m s status stop pipes others g idle allowed =
    store-IsSafe name m _ _ others (λ e. cc) (reset-IsGood status s g)
terminate_idle-IsSafe os credentials name m s status prune pipes others g idle allowed =
    remove-IsSafe name m s others (λ e. cc)
terminate_idle-IsSafe os credentials name m s status (restart reason) pipes others g idle allowed =
    IsSafe-store name m (with_status dummy s) m.world (
      start_service-IsSafe os credentials name reason _ pipes (allowed.up refl)
        (get-insert_self name (with_status dummy s) m.services) (allowed.permitted refl)
        (record { named = g.named; env_valid = g.env_valid; idle = idle })
        (IsValidBut-store name m (with_status dummy s) m.world others))

terminate_running-IsSafe :
    (credentials : Credentials) (name : Text) (m : ServiceManager) (s : Service)
    (process : ServiceProcess) (pty : Option Pty) (requested : AfterStop)
    → IsValidBut name m
    → IsGoodAs m.shutdown name s (running process pty)
    → IsSafe name m (ok tt, terminate_running credentials name m s process requested)
unfolding terminate_running abort_liveness_probe api_status
terminate_running-IsSafe credentials name m s process pty requested others g =
    store-IsSafe name m _ _ others (λ e. cc)
      (set_status-IsGood (stopping process requested pending) (abort_liveness_probe s m.world).0
        g.named g.env_valid refl refl tt (λ d. absurd (g.settled d)))
  where
    pending : Option PendingKill
    pending =
        (schedule_kill credentials name process s.config.graceful_termination_period
          (send_signal process sigterm (abort_liveness_probe s m.world).1)).0

terminate-IsSafe :
    (os : Os) (credentials : Credentials) (name : Text) (m : ServiceManager) (requested : AfterStop)
    (s : Service) (status : ServiceStatus)
    → HasLogPipes os
    → IsValidBut name m
    → IsGoodAs m.shutdown name s status
    → IsAllowed m credentials requested s
    → IsSafe name m (terminate os credentials name m requested s status)
unfolding terminate api_status
terminate-IsSafe os credentials name m requested s (stopping process after_stop pending) pipes
      others g allowed =
    store-IsSafe name m _ _ others (λ e. cc)
      (set_status-IsGood (stopping process (merge after_stop requested) pending) s g.named
        g.env_valid refl g.probed tt
        (λ d. merge_settled after_stop requested (g.settled d) (ground (arith, allowed.up, d))))
terminate-IsSafe os credentials name m requested s (frozen process pty) pipes others g allowed =
    store-IsSafe name m _ _ others (λ e. cc)
      (set_status-IsGood (stopping process requested none) s g.named g.env_valid refl g.probed tt
        (λ d. absurd (g.settled d)))
terminate-IsSafe os credentials name m requested s (running process pty) pipes others g allowed =
    terminate_running-IsSafe credentials name m s process pty requested others g
terminate-IsSafe os credentials name m requested s dummy pipes others g allowed = cc g.published
terminate-IsSafe os credentials name m requested s stopped pipes others g allowed =
    terminate_idle-IsSafe os credentials name m s stopped requested pipes others g g.probed allowed
terminate-IsSafe os credentials name m requested s (exited e) pipes others g allowed =
    terminate_idle-IsSafe os credentials name m s (exited e) requested pipes others g g.probed
      allowed
terminate-IsSafe os credentials name m requested s (error e) pipes others g allowed =
    terminate_idle-IsSafe os credentials name m s (error e) requested pipes others g g.probed
      allowed

pub terminate_service_inner-IsSafe :
    (os : Os) (credentials : Credentials) (name : Text) (requested : AfterStop) (m : ServiceManager)
    → HasLogPipes os
    → IsValid m
    → ((s : Service) → Map.get name m.services ≡ some s → IsAllowed m credentials requested s)
    → IsSafe name m (terminate_service_inner os credentials name requested m)
unfolding terminate_service_inner
terminate_service_inner-IsSafe os credentials name requested m pipes v allowed =
    with_service-IsSafe name m _ _ v (ok_or-returns (Map.get name m.services) _) λ s h.
      let found = ok_or-eq-ok (Map.get name m.services) _ h in
      terminate-IsSafe os credentials name m requested s s.state.status pipes (IsValid-but name v)
        (v.each name s found) (allowed s found)

pub terminate_service-IsSafe :
    (os : Os) (credentials : Credentials) (name : Text) (intent : AfterStop) (m : ServiceManager)
    → HasLogPipes os
    → IsValid m
    → IsSafe name m (terminate_service os credentials name intent m)
unfolding terminate_service
terminate_service-IsSafe os credentials name intent m pipes v =
    with_service-IsSafe name m _ _ v (get_service_mut-returns credentials name m) λ s h.
      let (unprotected, found, permitted) = get_service_mut-eq-ok credentials name m h in
      IsSafe-if (m.shutdown && is_restart intent) (λ e. same-IsSafe name v (λ p. cc))
        (λ e.
          terminate_service_inner-IsSafe os credentials name intent m pipes v
            (λ t f. record { up = λ r. ground arith; permitted = λ r. ground arith }))
