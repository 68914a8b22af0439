-- ===== src/Services/Growth/Query.antt =====
-- How the operations that leave every status as it is change the manager (beam-init/src/services.rs).
use beam_init.Base.{
  inl, inr, ◌≢◌, ℕ, ◌≡◌, true, none, some, Option, ◌==◌, ◌||◌, leb, ltb, Bool-cases, arith,
}
use beam_init.Base.Int.{ℤ, pos, negsuc}
use beam_init.Base.Text.{Text}
use beam_init.Services.Types.{
  Credentials, MonitorCommand, foreground, background, MonitorCommandSender, ServiceStatus, running,
  frozen, stopping, dummy, Service, ServiceManager, World,
}
use beam_init.Services.Monitor.{ser}
use beam_init.Services.Manager.{get_service_mut}
use beam_init.Services.Query.{
  tell_monitor, notify, notify_pty_attached, notify_pty_detached, signalled, deliver,
  signal_service,
}
use beam_init.Services.Growth.{
  WorldGrows, WorldGrows-refl, emit-WorldGrows, send_signal-WorldGrows, Grows, Grows-refl,
  world-Grows, with_service-Grows,
}

tell_monitor-WorldGrows :
    (tx : Option MonitorCommandSender) (pid : ℕ) (command : MonitorCommand) (w : World)
    → ser command ≢ none
    → WorldGrows w (tell_monitor tx pid command w)
unfolding tell_monitor
tell_monitor-WorldGrows none pid command w h = WorldGrows-refl w
tell_monitor-WorldGrows (some pipes) pid command w h = emit-WorldGrows _ w h

notify-Grows :
    (command : MonitorCommand) (m : ServiceManager) (status : ServiceStatus)
    → ser command ≢ none
    → Grows m (notify command m status).1
unfolding notify
notify-Grows command m (running process pty) h =
    world-Grows m _ (tell_monitor-WorldGrows process.monitor_tx process.main_pid command m.world h)
notify-Grows command m (frozen process pty) h =
    world-Grows m _ (tell_monitor-WorldGrows process.monitor_tx process.main_pid command m.world h)
notify-Grows command m dummy h = Grows-refl m
notify-Grows command m status h = Grows-refl m

pub notify_pty_attached-Grows :
    (credentials : Credentials) (name : Text) (m : ServiceManager)
    → Grows m (notify_pty_attached credentials name m).1
unfolding notify_pty_attached ser
notify_pty_attached-Grows credentials name m =
    with_service-Grows m (get_service_mut credentials name m) _
      (λ s h. notify-Grows foreground m s.state.status (λ e. cc))

pub notify_pty_detached-Grows :
    (credentials : Credentials) (name : Text) (m : ServiceManager)
    → Grows m (notify_pty_detached credentials name m).1
unfolding notify_pty_detached ser
notify_pty_detached-Grows credentials name m =
    with_service-Grows m (get_service_mut credentials name m) _
      (λ s h. notify-Grows background m s.state.status (λ e. cc))

signalled-Grows :
    (sig : ℕ) (m : ServiceManager) (status : ServiceStatus)
    → ltb sig 128 ≡ true
    → Grows m (signalled sig m status).1
unfolding signalled
signalled-Grows sig m (running process pty) h =
    world-Grows m _ (send_signal-WorldGrows process sig m.world h)
signalled-Grows sig m (frozen process pty) h =
    world-Grows m _ (send_signal-WorldGrows process sig m.world h)
signalled-Grows sig m (stopping process after_stop pending) h =
    world-Grows m _ (send_signal-WorldGrows process sig m.world h)
signalled-Grows sig m dummy h = Grows-refl m
signalled-Grows sig m status h = Grows-refl m

deliver-Grows : (sig : ℤ) (m : ServiceManager) (s : Service) → Grows m (deliver sig m s).1
unfolding deliver
deliver-Grows (negsuc n) m s = Grows-refl m
deliver-Grows (pos sig) m s = elim (Bool-cases (sig == 0 || leb 32 sig)) [
  | inl e ↦ rw e (Grows-refl m)
  | inr e ↦ rw e (signalled-Grows sig m s.state.status (ground (arith, e)))
]

pub signal_service-Grows :
    (credentials : Credentials) (name : Text) (sig : ℤ) (m : ServiceManager)
    → Grows m (signal_service credentials name sig m).1
unfolding signal_service
signal_service-Grows credentials name sig m =
    with_service-Grows m (get_service_mut credentials name m) _ (λ s h. deliver-Grows sig m s)
