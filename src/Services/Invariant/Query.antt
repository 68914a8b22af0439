-- ===== src/Services/Invariant/Query.antt =====
-- The invariant of the manager where a service is notified or sent a signal (services.rs).
use beam_init.Base.{ℕ, ◌||◌, ◌==◌, leb}
use beam_init.Base.Int.{ℤ, pos, negsuc}
use beam_init.Base.Text.{Text}
use beam_init.Services.Types.{
  Credentials, Service, ServiceManager, ServiceStatus, MonitorCommand, running, frozen, stopping,
  dummy,
}
use beam_init.Services.Service.{api_status}
use beam_init.Services.Query.{
  notify, notify_pty_attached, notify_pty_detached, signalled, deliver, signal_service,
}
use beam_init.Services.Invariant.{
  IsGoodAs, IsValid, IsSafe, IsSafe-if, same-IsSafe, world-IsSafe, with_service-IsSafe,
  get_service_mut-returns, get_service_mut-eq-ok,
}

notify-IsSafe :
    (name : Text) (command : MonitorCommand) (m : ServiceManager) (s : Service)
    (status : ServiceStatus)
    → IsValid m
    → IsGoodAs m.shutdown name s status
    → IsSafe name m (notify command m status)
unfolding notify api_status
notify-IsSafe name command m s (running process pty) v g = world-IsSafe name _ v (λ e. cc)
notify-IsSafe name command m s (frozen process pty) v g = world-IsSafe name _ v (λ e. cc)
notify-IsSafe name command m s dummy v g = cc g.published
notify-IsSafe name command m s status v g = same-IsSafe name v (λ e. cc)

pub notify_pty_attached-IsSafe :
    (credentials : Credentials) (name : Text) (m : ServiceManager)
    → IsValid m
    → IsSafe name m (notify_pty_attached credentials name m)
unfolding notify_pty_attached
notify_pty_attached-IsSafe credentials name m v =
    with_service-IsSafe name m _ _ v (get_service_mut-returns credentials name m) λ s h.
      notify-IsSafe name _ m s s.state.status v
        (v.each name s (get_service_mut-eq-ok credentials name m h).1)

pub notify_pty_detached-IsSafe :
    (credentials : Credentials) (name : Text) (m : ServiceManager)
    → IsValid m
    → IsSafe name m (notify_pty_detached credentials name m)
unfolding notify_pty_detached
notify_pty_detached-IsSafe credentials name m v =
    with_service-IsSafe name m _ _ v (get_service_mut-returns credentials name m) λ s h.
      notify-IsSafe name _ m s s.state.status v
        (v.each name s (get_service_mut-eq-ok credentials name m h).1)

signalled-IsSafe :
    (name : Text) (sig : ℕ) (m : ServiceManager) (s : Service) (status : ServiceStatus)
    → IsValid m
    → IsGoodAs m.shutdown name s status
    → IsSafe name m (signalled sig m status)
unfolding signalled api_status
signalled-IsSafe name sig m s (running process pty) v g = world-IsSafe name _ v (λ e. cc)
signalled-IsSafe name sig m s (frozen process pty) v g = world-IsSafe name _ v (λ e. cc)
signalled-IsSafe name sig m s (stopping process after_stop pending) v g =
    world-IsSafe name _ v (λ e. cc)
signalled-IsSafe name sig m s dummy v g = cc g.published
signalled-IsSafe name sig m s status v g = same-IsSafe name v (λ e. cc)

deliver-IsSafe :
    (name : Text) (sig : ℤ) (m : ServiceManager) (s : Service)
    → IsValid m
    → IsGoodAs m.shutdown name s s.state.status
    → IsSafe name m (deliver sig m s)
unfolding deliver
deliver-IsSafe name (pos sig) m s v g =
    IsSafe-if (sig == 0 || leb 32 sig) (λ e. same-IsSafe name v (λ p. cc))
      (λ e. signalled-IsSafe name sig m s s.state.status v g)
deliver-IsSafe name (negsuc n) m s v g = same-IsSafe name v (λ e. cc)

pub signal_service-IsSafe :
    (credentials : Credentials) (name : Text) (sig : ℤ) (m : ServiceManager)
    → IsValid m
    → IsSafe name m (signal_service credentials name sig m)
unfolding signal_service
signal_service-IsSafe credentials name sig m v =
    with_service-IsSafe name m _ _ v (get_service_mut-returns credentials name m) λ s h.
      deliver-IsSafe name sig m s v (v.each name s (get_service_mut-eq-ok credentials name m h).1)
