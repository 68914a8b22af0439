-- ===== src/Server/Events.antt =====
-- The event loop of beam-init/src/main.rs and the invariant of the service manager.
use beam_init.Base.{ℕ, ◌≡◌, ◌≢◌, ◌∙◌, refl, true, false, Bool, some, none, List, [], ◌∷◌, arith}
use beam_init.Base.Text.{Text}
use beam_init.Base.Map
use beam_init.Services.Types.{
  Credentials, Service, ServiceManager, ServiceError, IoError, World, ServiceStatus, running,
  frozen, dummy, restart, automatic,
}
use beam_init.Services.Outcome.{Outcome, ok, err, panic, ◌>>=◌}
use beam_init.Services.Service.{api_status}
use beam_init.Services.Spawn.{Os, failed, done, IoResult}
use beam_init.Services.Manager.{Step, get_service, new_manager}
use beam_init.Services.Query.{get_pty, status_pty, pty_of, cloned, too_many_files, subscribe}
use beam_init.Services.Invariant.{
  same-IsSafe, IsGoodAs, IsValid, IsValid-but, IsSafe, IsSettled, store-IsSafe, get_service-eq-ok,
}
use beam_init.Services.Invariant.Start.{HasLogPipes}
use beam_init.Services.Invariant.Shutdown.{IsFineDown, handle_signal-IsFineDown}
use beam_init.Services.Reap.{root}
use beam_init.Server.Command.{Host}
use beam_init.Server.Invariant.{
  handle_api_command-IsServed, stop_service_cmd-IsSafe, get_service-returns,
}
use beam_init.Server.Loop.{
  resume, Event, Answer, Next, handle_event, round, run, command, pty, signal, probe_failed,
  wait_service, is_panic, log_failure, probe_answer, crash, continue, after_event, bootstrap_next,
}

-- What the handling relies on: the pipe of a log can be made, and a terminal's descriptor can be
-- duplicated unless too many files are open.
pub record IsReliable (os : Os) : Type 0 where
  pub log_pipes : HasLogPipes os
  pub clones :
      (call : ℕ) (e : IoError) → os.clone_pty call ≡ failed e → too_many_files e.raw_os_error ≡ true

cloned-returns :
    (r : IoResult ℕ)
    → ((e : IoError) → r ≡ failed e → too_many_files e.raw_os_error ≡ true)
    → cloned r ≢ panic
unfolding cloned
cloned-returns (done fd) h = λ e. cc
cloned-returns (failed e) h = rw (h e refl) (λ p. cc)

status_pty-returns :
    (os : Os) (name : Text) (w : World) (down : Bool) (s : Service) (status : ServiceStatus)
    → IsReliable os
    → IsGoodAs down name s status
    → status_pty os name w status ≢ panic
unfolding status_pty pty_of api_status
status_pty-returns os name w down s (running process (some terminal)) r g =
    cloned-returns _ (r.clones w.next_id)
status_pty-returns os name w down s (running process none) r g = λ e. cc
status_pty-returns os name w down s (frozen process (some terminal)) r g =
    cloned-returns _ (r.clones w.next_id)
status_pty-returns os name w down s (frozen process none) r g = λ e. cc
status_pty-returns os name w down s dummy r g = cc g.published
status_pty-returns os name w down s status r g = λ e. cc

get_pty-returns :
    (os : Os) (credentials : Credentials) (name : Text) (m : ServiceManager)
    → IsReliable os
    → IsValid m
    → get_pty os credentials name m ≢ panic
unfolding get_pty
get_pty-returns os credentials name m r v = go (get_service credentials name m) refl
  where
    go :
        (found : Outcome Service)
        → get_service credentials name m ≡ found
        → (found >>= λ s. status_pty os name m.world s.state.status) ≢ panic
    go (ok s) h =
        status_pty-returns os name m.world m.shutdown s s.state.status r
          (v.each name s (get_service-eq-ok credentials name m h).0)
    go (err e) h = λ p. cc
    go panic h = absurd (get_service-returns credentials name m h)

subscribe-returns :
    (credentials : Credentials) (name : Text) (m : ServiceManager)
    → subscribe credentials name m ≢ panic
unfolding subscribe
subscribe-returns credentials name m = ground (arith, get_service-returns credentials name m)

not-is_panic {ℓ} : {A : Type ℓ} (r : Outcome A) → r ≢ panic → is_panic r ≡ false
unfolding is_panic
not-is_panic (ok a) h = refl
not-is_panic (err e) h = refl
not-is_panic panic h = absurd (h refl)

-- The line that says that an automatic restart failed is pushed to the log.
log_failure-valid :
    (host : Host) (name : Text) (e : ServiceError) (m : ServiceManager) (found : Outcome Service)
    → get_service root name m ≡ found
    → IsValid m
    → IsSafe name m (ok tt, log_failure host name e m found)
unfolding log_failure
log_failure-valid host name e m (ok s) h v =
    let g = v.each name s (get_service-eq-ok root name m h).0 in
    store-IsSafe name m _ _ (IsValid-but name v) (λ p. cc)
      (record {
        named = g.named;
        env_valid = g.env_valid;
        published = g.published;
        probed = g.probed;
        connected = g.connected;
        settled = g.settled;
      })
log_failure-valid host name e m (err _) h v = same-IsSafe name v (λ p. cc)
log_failure-valid host name e m panic h v = same-IsSafe name v (λ p. cc)

probe_answer-IsFineDown :
    (host : Host) (name : Text) (m : ServiceManager) (r : Step (Unit {0}))
    → IsSafe name m r
    → IsFineDown m (probe_answer host name r)
unfolding probe_answer
probe_answer-IsFineDown host name m (err e, n) i =
    let j = log_failure-valid host name e n (get_service root name n) refl i.valid in
    record { returns = j.returns; stays_down = λ d. j.flag ∙ i.flag ∙ d; valid = j.valid }
probe_answer-IsFineDown host name m (ok u, n) i = record {
  returns = λ e. cc;
  stays_down = λ d. i.flag ∙ d;
  valid = i.valid;
}
probe_answer-IsFineDown host name m (panic, n) i = absurd (i.returns refl)

-- What is left after an event.
pub record IsHandled (m : ServiceManager) (r : Answer × Bool × ServiceManager) : Type 0 where
  pub panicked : r.1 ≡ false
  pub stays_down : m.shutdown ≡ true → r.2.shutdown ≡ true
  pub valid : IsValid r.2

-- If the system is reliable and the manager in order, then handling any event does not panic,
-- leaves the manager in order, and never takes a shutdown back.
pub handle_event-IsHandled :
    (host : Host) (event : Event) (m : ServiceManager)
    → IsReliable host.os
    → IsValid m
    → IsHandled m (handle_event host event m)
unfolding handle_event
handle_event-IsHandled host (command cmd credentials) m r v =
    let i = handle_api_command-IsServed host cmd credentials m r.log_pipes v in
    record { panicked = not-is_panic _ i.returns; stays_down = λ d. i.flag ∙ d; valid = i.valid }
handle_event-IsHandled host (pty name credentials) m r v = record {
  panicked = not-is_panic _ (get_pty-returns host.os credentials name m r v);
  stays_down = λ d. d;
  valid = v;
}
handle_event-IsHandled host (signal signo children) m r v =
    let i = handle_signal-IsFineDown host.os signo children m r.log_pipes v in
    record { panicked = not-is_panic _ i.returns; stays_down = i.stays_down; valid = i.valid }
handle_event-IsHandled host (probe_failed name) m r v =
    let i =
      probe_answer-IsFineDown host name m _
        (stop_service_cmd-IsSafe host.os root name (restart automatic) m _ refl r.log_pipes v) in
    record { panicked = not-is_panic _ i.returns; stays_down = i.stays_down; valid = i.valid }
handle_event-IsHandled host (wait_service name credentials) m r v = record {
  panicked = not-is_panic _ (subscribe-returns credentials name m);
  stays_down = λ d. d;
  valid = v;
}

new_manager-IsValid : (files : List Text) (lines : ℕ) → IsValid (new_manager files lines)
unfolding new_manager Map.get
new_manager-IsValid files lines = record { sorted = tt; each = λ k s h. cc }

after_event-ne-crash : (m : ServiceManager) → after_event m ≢ crash
unfolding after_event bootstrap_next
after_event-ne-crash m = ground arith

-- The loop after some events.
pub record IsRunning (m : ServiceManager) (r : Next × ServiceManager) : Type 0 where
  pub survives : r.0 ≢ crash
  pub stays_down : m.shutdown ≡ true → r.1.shutdown ≡ true
  pub valid : IsValid r.1

round-IsRunning :
    (host : Host) (event : Event) (m : ServiceManager)
    → IsReliable host.os
    → IsValid m
    → IsRunning m (round host event m)
unfolding round
round-IsRunning host event m r v =
    let i = handle_event-IsHandled host event m r v in
    record {
      survives = rw i.panicked (after_event-ne-crash _);
      stays_down = i.stays_down;
      valid = i.valid;
    }

resume-IsRunning :
    (m : ServiceManager) (r : Next × ServiceManager) (f : ServiceManager → Next × ServiceManager)
    → IsRunning m r
    → ((n : ServiceManager) → IsValid n → IsRunning n (f n))
    → IsRunning m (resume r f)
unfolding resume
resume-IsRunning m (continue, n) f i k =
    let j = k n i.valid in
    record {
      survives = j.survives;
      stays_down = λ d. j.stays_down (i.stays_down d);
      valid = j.valid;
    }
resume-IsRunning m (next, n) f i k = i

run-IsRunning :
    (host : Host) (events : List Event) (m : ServiceManager)
    → IsReliable host.os
    → IsValid m
    → IsRunning m (run host events m)
unfolding run
run-IsRunning host [] m r v = record { survives = λ e. cc; stays_down = λ d. d; valid = v }
run-IsRunning host (event ∷ events) m r v =
    resume-IsRunning m (round host event m) (run host events) (round-IsRunning host event m r v)
      (λ n w. run-IsRunning host events n r w)

-- Whatever events a new manager is given, if the system is reliable: the program does not panic,
-- and after the last event that it handles every service has a valid name and environment, a
-- status that its subscribers were told, a liveness task exactly if it runs and is configured
-- with a probe, a monitor process and a terminal exactly if these are configured and a process is
-- running or frozen, and during a shutdown no service runs, is frozen or waits to be restarted.
pub run-new_manager :
    (host : Host) (files : List Text) (lines : ℕ) (events : List Event)
    → IsReliable host.os
    → ((run host events (new_manager files lines)).0 ≢ crash)
      × IsValid (run host events (new_manager files lines)).1
run-new_manager host files lines events r =
    let i =
      run-IsRunning host events (new_manager files lines) r (new_manager-IsValid files lines) in
    (i.survives, i.valid)

-- If the system is reliable and the manager in order and shutting down, then after any further
-- events it still shuts down, and no service runs, is frozen or waits to be restarted.
pub run-IsSettled :
    (host : Host) (events : List Event) (m : ServiceManager) (name : Text) (s : Service)
    → IsReliable host.os
    → IsValid m
    → m.shutdown ≡ true
    → Map.get name (run host events m).1.services ≡ some s
    → ((run host events m).1.shutdown ≡ true) × IsSettled s.state.status
run-IsSettled host events m name s r v down found =
    let i = run-IsRunning host events m r v in
    (i.stays_down down, (i.valid.each name s found).settled (i.stays_down down))
