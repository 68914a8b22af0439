-- ===== src/Server/Loop.antt =====
-- The event loop of beam-init/src/main.rs, one event at a time.
use beam_init.Base.{ℕ, Bool, true, false, List, [], ◌∷◌, ◌++◌, if◌then◌else◌}
use beam_init.Base.Text.{Text, codes}
use beam_init.Api.{ExitStatus, exit_code, exit_signal}
use beam_init.Logs.{push}
use beam_init.Services.Types.{
  Credentials, ServiceError, restart, automatic, ServiceStatus, stopped, exited, Service,
  ServiceManager,
}
use beam_init.Services.Outcome.{Outcome, ok, err, panic}
use beam_init.Services.Manager.{Step, bootstrap_name, get_service, store}
use beam_init.Services.Reap.{root, handle_signal, shutdown_complete}
use beam_init.Services.Query.{ServiceStatusSubscription, get_pty, subscribe}
use beam_init.Server.Response.{Response, Body, error_response}
use beam_init.Server.Command.{Command, Host, handle_api_command, stop_service_cmd}

-- `children` is what `waitpid` gives to the handler of the signal.
pub data Event : Type 0 where
  command : Command → Credentials → Event
  pty : (name : Text) → Credentials → Event
  signal : (signo : ℕ) (children : List (ℕ × ExitStatus)) → Event
  probe_failed : (name : Text) → Event
  wait_service : (name : Text) → Credentials → Event

-- What is sent back over the event's channel.
pub data Answer : Type 0 where
  response : Response → Answer
  descriptor : ℕ → Answer
  subscription : Outcome ServiceStatusSubscription → Answer
  nothing : Answer

pub data Next : Type 0 where
  continue break crash : Next
  exit : (code : ℕ) → Next
  exit_with_signal : (signal : ℕ) → Next

-- `res.into_response()`; JSON bodies are answered with status 200.
unfoldable pub respond : Outcome Body → Answer
respond (ok body) = response (record { code = 200; body = body })
respond (err e) = response (error_response e)
respond panic = nothing

unfoldable pub describe : Outcome ℕ → Answer
describe (ok fd) = descriptor fd
describe _ = nothing

unfoldable pub log_failure :
    Host → Text → ServiceError → ServiceManager → Outcome Service → ServiceManager
log_failure host name e m (ok s) =
    store name
      (record s {
        state = record (s.state) {
          logs = record (s.state.logs) {
            queue =
                push
                  (codes "[failed to automatically restart: " ++ (host.debug_text e ++ codes "]"))
                  s.state.logs.queue;
          };
        };
      })
      m.world m
log_failure host name e m _ = m

unfoldable pub probe_answer : Host → Text → Step (Unit {0}) → Step (Unit {0})
unfolding log_failure
probe_answer host name (err e, m) = (ok tt, log_failure host name e m (get_service root name m))
probe_answer host name step = step

unfoldable pub is_panic {ℓ} : {A : Type ℓ} → Outcome A → Bool
is_panic panic = true
is_panic _ = false

-- The handling of an event: the answer, whether it panicked, and the manager afterwards.
unfoldable pub handle_event : Host → Event → ServiceManager → Answer × Bool × ServiceManager
unfolding respond describe probe_answer is_panic
handle_event host (command cmd credentials) m =
    let (r, m') = handle_api_command host cmd credentials m in (respond r, is_panic r, m')
handle_event host (pty name credentials) m =
    let r = get_pty host.os credentials name m in (describe r, is_panic r, m)
handle_event host (signal signo children) m =
    let (r, m') = handle_signal host.os signo children m in (nothing, is_panic r, m')
handle_event host (probe_failed name) m =
    let (r, m') =
      probe_answer host name (stop_service_cmd host.os root name (restart automatic) m) in
    (nothing, is_panic r, m')
handle_event host (wait_service name credentials) m =
    let r = subscribe credentials name m in (subscription r, is_panic r, m)

unfoldable pub bootstrap_exit : ServiceStatus → Next
bootstrap_exit (exited (exit_code code)) = exit code
bootstrap_exit (exited (exit_signal sig core_dumped)) = exit_with_signal sig
bootstrap_exit stopped = exit 0
bootstrap_exit _ = continue

unfoldable pub bootstrap_next : Outcome Service → Next
unfolding bootstrap_exit
bootstrap_next (ok s) = bootstrap_exit s.state.status
bootstrap_next _ = continue

-- What the loop does once an event is handled.
unfoldable pub after_event : ServiceManager → Next
unfolding bootstrap_next
after_event m =
    if shutdown_complete m
    then break
    else if m.shutdown
    then continue
    else bootstrap_next (get_service root bootstrap_name m)

-- One round of the loop.
unfoldable pub round : Host → Event → ServiceManager → Next × ServiceManager
unfolding handle_event after_event
round host event m =
    let (answer, panicked, m') = handle_event host event m in
    (if panicked then crash else after_event m', m')

-- The loop goes on only if the round did not end the program.
unfoldable pub resume :
    Next × ServiceManager → (ServiceManager → Next × ServiceManager) → Next × ServiceManager
resume (continue, m) f = f m
resume (next, m) f = (next, m)

-- The rounds over a sequence of events, up to the one that ends the program.
unfoldable pub run : Host → List Event → ServiceManager → Next × ServiceManager
unfolding round resume
run host [] m = (continue, m)
run host (event ∷ events) m = resume (round host event m) (run host events)
