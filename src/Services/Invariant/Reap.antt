-- ===== src/Services/Invariant/Reap.antt =====
-- The invariant of the manager where children are reaped (`handle_signal` of services.rs).
use beam_init.Base.{ℕ, ◌≡◌, refl, ◌∙◌, true, false, Option, none, some, arith, List, [], ◌∷◌, ◌==◌}
use beam_init.Base.Text.{Text}
use beam_init.Base.Map
use beam_init.Base.Map.{Map, get-insert_self}
use beam_init.Base.Sorted.{HasEntry, here, there, get-entry}
use beam_init.Api.{ExitStatus}
use beam_init.Services.Types.{
  ServiceProcess, PendingKill, AfterStop, stop, prune, restart, ServiceStatus, stopped, running,
  frozen, stopping, exited, Service, ServiceManager,
}
use beam_init.Services.Outcome.{ok, err, panic}
use beam_init.Services.Service.{
  api_status, set_status, check_credentials, is_restart, abort_liveness_probe, abort,
}
use beam_init.Services.Spawn.{Os}
use beam_init.Services.Manager.{Step, store}
use beam_init.Services.Reap.{
  reap, reap_in, reap_service, reap_exited, reap_stopping, after_reap, take_pending, pending_task,
  reap_all, and_then,
}
use beam_init.Services.Invariant.{
  IsGoodAs, IsValid, IsValidBut, IsValid-but, IsValidBut-store, IsSafe, set_status-IsGood,
  set_status-published, store-IsSafe, remove-IsSafe, IsSafe-store, IsFine, IsSafe-IsFine, IsFine-if,
}
use beam_init.Services.Invariant.Start.{HasLogPipes, start_service-IsSafe}

own_credentials : (s : Service) → check_credentials s s.config.credentials ≡ ok tt
unfolding check_credentials
own_credentials s = ground arith

pub reap_exited-IsSafe :
    (name : Text) (m : ServiceManager) (s : Service) (status : ExitStatus) (before : ServiceStatus)
    → IsValid m
    → IsGoodAs m.shutdown name s before
    → IsSafe name m (ok tt, reap_exited name m s status)
unfolding reap_exited abort_liveness_probe set_status api_status
reap_exited-IsSafe name m s status before v g =
    store-IsSafe name m _ _ (IsValid-but name v) (λ e. cc)
      (record {
        named = g.named;
        env_valid = g.env_valid;
        published = set_status-published (exited status) s refl;
        probed = refl;
        connected = tt;
        settled = λ d. tt;
      })

-- `s` has no probe and no pending kill any more, and its process is gone.
after_reap-IsSafe :
    (os : Os) (name : Text) (m : ServiceManager) (s : Service) (after_stop : AfterStop)
    → HasLogPipes os
    → IsValidBut name m
    → Map.get name m.services ≡ some s
    → IsGoodAs m.shutdown name s s.state.status
    → s.state.liveness_probe ≡ none
    → (m.shutdown ≡ true → is_restart after_stop ≡ false)
    → IsSafe name m (after_reap os name m s after_stop)
unfolding after_reap api_status is_restart
after_reap-IsSafe os name m s stop pipes others found g idle settled =
    store-IsSafe name m _ _ others (λ e. cc)
      (set_status-IsGood stopped s g.named g.env_valid refl idle tt (λ d. tt))
after_reap-IsSafe os name m s prune pipes others found g idle settled =
    remove-IsSafe name m s others (λ e. cc)
after_reap-IsSafe os name m s (restart reason) pipes others found g idle settled =
    start_service-IsSafe os s.config.credentials name reason m pipes (ground arith) found
      (own_credentials s) (record { named = g.named; env_valid = g.env_valid; idle = idle }) others

pub reap_stopping-IsSafe :
    (os : Os) (name : Text) (m : ServiceManager) (s : Service) (process : ServiceProcess)
    (after_stop : AfterStop) (pending : Option PendingKill)
    → HasLogPipes os
    → IsValid m
    → IsGoodAs m.shutdown name s (stopping process after_stop pending)
    → IsSafe name m (reap_stopping os name m s process after_stop pending)
unfolding reap_stopping abort_liveness_probe take_pending api_status
reap_stopping-IsSafe os name m s process after_stop pending pipes v g =
    let w = abort s.state.liveness_probe (abort (pending_task pending) m.world) in
    IsSafe-store name m s' w (
      after_reap-IsSafe os name (store name s' w m) s' after_stop pipes
        (IsValidBut-store name m s' w (IsValid-but name v)) (get-insert_self name s' m.services)
        (record {
          named = g.named;
          env_valid = g.env_valid;
          published = g.published;
          probed = refl;
          connected = tt;
          settled = g.settled;
        })
        refl g.settled)
  where
    s' : Service
    s' = (abort_liveness_probe (take_pending s process after_stop) m.world).0

reap_service-IsFine :
    (os : Os) (pid : ℕ) (status : ExitStatus) (name : Text) (m : ServiceManager) (s : Service)
    (before : ServiceStatus) (next : Step (Unit {0}))
    → HasLogPipes os
    → IsValid m
    → IsGoodAs m.shutdown name s before
    → IsFine m next
    → IsFine m (reap_service os pid status name m s before next)
unfolding reap_service
reap_service-IsFine os pid status name m s (running process pty) next pipes v g f =
    IsFine-if (process.main_pid == pid)
      (IsSafe-IsFine name (reap_exited-IsSafe name m s status (running process pty) v g)) f
reap_service-IsFine os pid status name m s (frozen process pty) next pipes v g f =
    IsFine-if (process.main_pid == pid)
      (IsSafe-IsFine name (reap_exited-IsSafe name m s status (frozen process pty) v g)) f
reap_service-IsFine os pid status name m s (stopping process after_stop pending) next pipes v g f =
    IsFine-if (process.main_pid == pid)
      (IsSafe-IsFine name (reap_stopping-IsSafe os name m s process after_stop pending pipes v g)) f
reap_service-IsFine os pid status name m s before next pipes v g f = f

reap_in-IsFine :
    (os : Os) (pid : ℕ) (status : ExitStatus) (m : ServiceManager) (rest : Map Service)
    → HasLogPipes os
    → IsValid m
    → ((k : Text) (s : Service) → HasEntry k s rest → Map.get k m.services ≡ some s)
    → IsFine m (reap_in os pid status m rest)
unfolding reap_in
reap_in-IsFine os pid status m [] pipes v found = record {
  returns = λ e. cc;
  flag = refl;
  valid = v;
}
reap_in-IsFine os pid status m ((name, s) ∷ rest) pipes v found =
    reap_service-IsFine os pid status name m s s.state.status _ pipes v
      (v.each name s (found name s here))
      (reap_in-IsFine os pid status m rest pipes v (λ k t e. found k t (there e)))

pub reap-IsFine :
    (os : Os) (pid : ℕ) (status : ExitStatus) (m : ServiceManager)
    → HasLogPipes os
    → IsValid m
    → IsFine m (reap os pid status m)
unfolding reap
reap-IsFine os pid status m pipes v =
    reap_in-IsFine os pid status m m.services pipes v (λ k s e. get-entry e v.sorted)

-- One operation after another.
pub and_then-IsFine :
    {m : ServiceManager} (r : Step (Unit {0})) (f : ServiceManager → Step (Unit {0}))
    → IsFine m r
    → ((n : ServiceManager) → IsValid n → n.shutdown ≡ m.shutdown → IsFine n (f n))
    → IsFine m (and_then r f)
and_then-IsFine (ok u, n) f i k =
    let j = k n i.valid i.flag in
    record { returns = j.returns; flag = j.flag ∙ i.flag; valid = j.valid }
and_then-IsFine (err e, n) f i k =
    let j = k n i.valid i.flag in
    record { returns = j.returns; flag = j.flag ∙ i.flag; valid = j.valid }
and_then-IsFine (panic, n) f i k = absurd (i.returns refl)

pub reap_all-IsFine :
    (os : Os) (children : List (ℕ × ExitStatus)) (m : ServiceManager)
    → HasLogPipes os
    → IsValid m
    → IsFine m (reap_all os children m)
unfolding reap_all
reap_all-IsFine os [] m pipes v = record { returns = λ e. cc; flag = refl; valid = v }
reap_all-IsFine os ((pid, status) ∷ children) m pipes v =
    and_then-IsFine (reap os pid status m) (reap_all os children)
      (reap-IsFine os pid status m pipes v) (λ n w e. reap_all-IsFine os children n pipes w)
