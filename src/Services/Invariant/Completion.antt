-- ===== src/Services/Invariant/Completion.antt =====
-- `shutdown_complete` of beam-init/src/services.rs and the invariant of the manager.
use beam_init.Base.{subst, ◌≡◌, ◌↔◌, refl, true, some, [], ◌∷◌, arith}
use beam_init.Base.Text.{Text}
use beam_init.Base.Map
use beam_init.Base.Map.{Map}
use beam_init.Base.Sorted.{HasEntry, here, there, get-entry}
use beam_init.Services.Types.{
  ServiceStatus, stopped, running, frozen, stopping, exited, error, dummy, Service, ServiceManager,
}
use beam_init.Services.Service.{api_status}
use beam_init.Services.Reap.{shutdown_complete, all_finished, is_finished}
use beam_init.Services.Invariant.{IsValid, IsGoodAs}

-- The status of a service that is being stopped.
abbrev pub IsStopping : ServiceStatus → Type 0
IsStopping (stopping process after_stop pending) = Unit {0}
IsStopping _ = ⊥

-- On the way down a service either has finished or is stopping.
finished_unless_stopping :
    (name : Text) (s : Service) (status : ServiceStatus)
    → IsGoodAs true name s status
    → (IsStopping status → ⊥)
    → is_finished status ≡ true
unfolding is_finished api_status
finished_unless_stopping name s stopped g n = refl
finished_unless_stopping name s (running process pty) g n = absurd (g.settled refl)
finished_unless_stopping name s (frozen process pty) g n = absurd (g.settled refl)
finished_unless_stopping name s (stopping process after_stop pending) g n = absurd (n tt)
finished_unless_stopping name s (exited status) g n = refl
finished_unless_stopping name s (error e) g n = refl
finished_unless_stopping name s dummy g n = absurd cc g.published

not_stopping : (status : ServiceStatus) → is_finished status ≡ true → IsStopping status → ⊥
unfolding is_finished
not_stopping (stopping process after_stop pending) h i = absurd cc
not_stopping _ h i = i

all_finished_lem :
    (services : Map Service)
    → ((k : Text) (s : Service) → HasEntry k s services → is_finished s.state.status ≡ true)
    → all_finished services ≡ true
unfolding all_finished
all_finished_lem [] each = refl
all_finished_lem ((k, s) ∷ services) each =
    rw (each k s here, all_finished_lem services (λ j t e. each j t (there e))) refl

finished_at :
    (k : Text) (s : Service) (services : Map Service)
    → all_finished services ≡ true
    → Map.get k services ≡ some s
    → is_finished s.state.status ≡ true
unfolding all_finished Map.get
finished_at k s [] h found = absurd cc
finished_at k s ((j, t) ∷ services) h found = ground (arith, h, found, finished_at k s services)

-- No service is being stopped.
abbrev pub NoneStopping : ServiceManager → Type 0
NoneStopping m =
    (k : Text) (s : Service) → Map.get k m.services ≡ some s → IsStopping s.state.status → ⊥

-- During a shutdown of a manager in order it is complete exactly if no service is being stopped.
pub shutdown_complete_iff :
    (m : ServiceManager)
    → IsValid m
    → m.shutdown ≡ true
    → (shutdown_complete m ≡ true) ↔ NoneStopping m
unfolding shutdown_complete
shutdown_complete_iff m v down = (
  λ h k s found.
      not_stopping s.state.status (finished_at k s m.services (ground (arith, h, down)) found),
  λ n. rw down (
      all_finished_lem m.services (λ k s e.
        finished_unless_stopping k s s.state.status
          (subst (λ d. IsGoodAs d k s s.state.status) down (v.each k s (get-entry e v.sorted)))
          (n k s (get-entry e v.sorted)))),
)
