-- ===== src/Services/Growth/Lifecycle.antt =====
-- How freezing, thawing, stopping and killing change the manager (beam-init/src/services.rs).
use beam_init.Base.{
  ◌≤◌, ℕ, sym, ap, ◌∙◌, ◌≡◌, refl, inl, inr, Option, none, some, arith, Bool-cases, ◌&&◌, ◌==◌,
}
use beam_init.Base.Text.{Text}
use beam_init.Base.Map
use beam_init.Services.Types.{
  Credentials, ServiceProcess, PendingKill, AfterStop, stop, prune, restart, ServiceStatus, stopped,
  running, frozen, stopping, exited, error, dummy, Service, ServiceManager, World,
}
use beam_init.Services.Service.{
  abort, send_signal, set_status, is_restart, merge, abort_liveness_probe,
}
use beam_init.Services.Spawn.{Os}
use beam_init.Services.Manager.{get_service_mut}
use beam_init.Services.Lifecycle.{
  sigterm, sigkill, sigcont, freeze, freeze_service, thaw, thaw_service, terminate, terminate_idle,
  terminate_running, terminate_service_inner, terminate_service, with_status, schedule_kill,
}
use beam_init.Services.Invariant.{ok_or-eq-ok, get_service_mut-eq-ok}
use beam_init.Services.Growth.{
  store, WorldGrows, WorldGrows-refl, WorldGrows-trans, emit-WorldGrows, take_id-WorldGrows,
  abort-WorldGrows, send_signal-WorldGrows, token_of, Grows, Grows-refl, Grows-trans, Grows-if,
  store-Grows, removed-Grows, with_service-Grows,
}
use beam_init.Services.Growth.Start.{restart_probe-Kept, start_service-Grows}

-- A write of a status without a timer.
pub set_status-Grows :
    (name : Text) (status : ServiceStatus) (s : Service) (w : World) (m : ServiceManager)
    → token_of status ≡ none
    → WorldGrows m.world w
    → Grows m (store name (set_status status s) w m)
unfolding set_status
set_status-Grows name status s w m n g = store-Grows name _ w m g (λ token h. cc)

-- A write of the status that the service has.
reset-Grows :
    (name : Text) (s t : Service) (m : ServiceManager)
    → Map.get name m.services ≡ some s
    → token_of t.state.status ≡ token_of s.state.status
    → Grows m (store name t m.world m)
reset-Grows name s t m f e =
    store-Grows name t m.world m (WorldGrows-refl m.world)
      (λ token h. inl (record { service = s; found = f; waits = sym e ∙ h }))

freeze-Grows :
    (name : Text) (m : ServiceManager) (s : Service) (status : ServiceStatus)
    → Map.get name m.services ≡ some s
    → s.state.status ≡ status
    → Grows m (freeze name m s status).1
unfolding freeze abort_liveness_probe set_status
freeze-Grows name m s (running process pty) f e =
    set_status-Grows name (frozen process pty) (abort_liveness_probe s m.world).0 _ m refl (
      WorldGrows-trans (abort-WorldGrows s.state.liveness_probe m.world)
        (send_signal-WorldGrows process _ _ refl))
freeze-Grows name m s dummy f e = Grows-refl m
freeze-Grows name m s status f e = reset-Grows name s _ m f (ap token_of (sym e))

pub freeze_service-Grows :
    (credentials : Credentials) (name : Text) (m : ServiceManager)
    → Grows m (freeze_service credentials name m).1
unfolding freeze_service
freeze_service-Grows credentials name m =
    with_service-Grows m (get_service_mut credentials name m) _ (λ s h.
      freeze-Grows name m s s.state.status (get_service_mut-eq-ok credentials name m h).1 refl)

thaw-Grows :
    (name : Text) (m : ServiceManager) (s : Service) (status : ServiceStatus)
    → Map.get name m.services ≡ some s
    → s.state.status ≡ status
    → Grows m (thaw name m s status).1
unfolding thaw set_status
thaw-Grows name m s (frozen process pty) f e =
    let k =
      restart_probe-Kept name (set_status (running process pty) s)
        (send_signal process sigcont m.world) in
    store-Grows name _ _ m
      (WorldGrows-trans (send_signal-WorldGrows process _ m.world refl) k.world)
      (λ token h. absurd (ground (arith, k.tokens token h)))
thaw-Grows name m s dummy f e = Grows-refl m
thaw-Grows name m s status f e = reset-Grows name s _ m f (ap token_of (sym e))

pub thaw_service-Grows :
    (credentials : Credentials) (name : Text) (m : ServiceManager)
    → Grows m (thaw_service credentials name m).1
unfolding thaw_service
thaw_service-Grows credentials name m =
    with_service-Grows m (get_service_mut credentials name m) _ (λ s h.
      thaw-Grows name m s s.state.status (get_service_mut-eq-ok credentials name m h).1 refl)

terminate_idle-Grows :
    (os : Os) (credentials : Credentials) (name : Text) (m : ServiceManager) (s : Service)
    (status : ServiceStatus) (requested : AfterStop)
    → token_of status ≡ none
    → Grows m (terminate_idle os credentials name m s status requested).1
unfolding terminate_idle
terminate_idle-Grows os credentials name m s status stop n =
    set_status-Grows name status s m.world m n (WorldGrows-refl m.world)
terminate_idle-Grows os credentials name m s status prune n = removed-Grows name s m
terminate_idle-Grows os credentials name m s status (restart reason) n =
    Grows-trans
      (store-Grows name (with_status dummy s) m.world m (WorldGrows-refl m.world) (λ token h. cc))
      (start_service-Grows os credentials name reason _)

-- The token of a scheduled kill is new.
record IsScheduled (process : ServiceProcess) (requested : AfterStop) (w : World)
    (r : Option PendingKill × World) : Type 0 where
  grows : WorldGrows w r.1
  fresh : (token : ℕ) → token_of (stopping process requested r.0) ≡ some token → w.next_id ≤ token

schedule_kill-IsScheduled :
    (credentials : Credentials) (name : Text) (process : ServiceProcess) (requested : AfterStop)
    (period : ℕ) (w : World)
    → IsScheduled process requested w (schedule_kill credentials name process period w)
unfolding schedule_kill
schedule_kill-IsScheduled credentials name process requested period w =
    elim (Bool-cases (period == 0)) [
      | inl e ↦
          rw e (record {
            grows = send_signal-WorldGrows process sigkill w refl;
            fresh = λ token h. cc;
          })
      | inr e ↦ rw e (record {
        grows =
            WorldGrows-trans (take_id-WorldGrows w)
              (WorldGrows-trans (take_id-WorldGrows _) (emit-WorldGrows _ _ tt));
        fresh = λ token h. ground (arith, h);
      })
    ]

terminate_running-Grows :
    (credentials : Credentials) (name : Text) (m : ServiceManager) (s : Service)
    (process : ServiceProcess) (requested : AfterStop)
    → Grows m (terminate_running credentials name m s process requested)
unfolding terminate_running abort_liveness_probe set_status
terminate_running-Grows credentials name m s process requested =
    let before =
      WorldGrows-trans (abort-WorldGrows s.state.liveness_probe m.world)
        (send_signal-WorldGrows process sigterm _ refl) in
    let i =
      schedule_kill-IsScheduled credentials name process requested
        s.config.graceful_termination_period
        (send_signal process sigterm (abort s.state.liveness_probe m.world)) in
    store-Grows name _ _ m (WorldGrows-trans before i.grows)
      (λ token h. inr (omega (arith, before.ids, i.fresh token h)))

same_token :
    (process : ServiceProcess) (after_stop other : AfterStop) (pending : Option PendingKill)
    → token_of (stopping process after_stop pending) ≡ token_of (stopping process other pending)
same_token process after_stop other none = refl
same_token process after_stop other (some kill) = refl

terminate-Grows :
    (os : Os) (credentials : Credentials) (name : Text) (m : ServiceManager) (requested : AfterStop)
    (s : Service) (status : ServiceStatus)
    → Map.get name m.services ≡ some s
    → s.state.status ≡ status
    → Grows m (terminate os credentials name m requested s status).1
unfolding terminate set_status
terminate-Grows os credentials name m requested s (stopping process after_stop pending) f e =
    reset-Grows name s _ m f
      (same_token process (merge after_stop requested) after_stop pending ∙ ap token_of (sym e))
terminate-Grows os credentials name m requested s (frozen process pty) f e =
    set_status-Grows name _ s _ m refl (send_signal-WorldGrows process _ m.world refl)
terminate-Grows os credentials name m requested s (running process pty) f e =
    terminate_running-Grows credentials name m s process requested
terminate-Grows os credentials name m requested s dummy f e = Grows-refl m
terminate-Grows os credentials name m requested s stopped f e =
    terminate_idle-Grows os credentials name m s stopped requested refl
terminate-Grows os credentials name m requested s (exited x) f e =
    terminate_idle-Grows os credentials name m s (exited x) requested refl
terminate-Grows os credentials name m requested s (error x) f e =
    terminate_idle-Grows os credentials name m s (error x) requested refl

pub terminate_service_inner-Grows :
    (os : Os) (credentials : Credentials) (name : Text) (requested : AfterStop) (m : ServiceManager)
    → Grows m (terminate_service_inner os credentials name requested m).1
unfolding terminate_service_inner
terminate_service_inner-Grows os credentials name requested m = with_service-Grows m _ _ (λ s h.
    terminate-Grows os credentials name m requested s s.state.status
      (ok_or-eq-ok (Map.get name m.services) _ h) refl)

pub terminate_service-Grows :
    (os : Os) (credentials : Credentials) (name : Text) (intent : AfterStop) (m : ServiceManager)
    → Grows m (terminate_service os credentials name intent m).1
unfolding terminate_service
terminate_service-Grows os credentials name intent m =
    with_service-Grows m (get_service_mut credentials name m) _ (λ s h.
      Grows-if (m.shutdown && is_restart intent) _ _ (Grows-refl m)
        (terminate_service_inner-Grows os credentials name intent m))
