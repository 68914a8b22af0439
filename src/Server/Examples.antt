-- ===== src/Server/Examples.antt =====
-- The event loop and the API at concrete inputs: a system on which every call succeeds, two users
-- and a shutdown.
use beam_init.Base.{
  ◌⊎◌, ◌↔◌, subst₂, arith, inr, inl, Bool-cases, Bool, false, some, ◌≡◌, ◌≢◌, refl, true, none,
  List, [], ◌∷◌,
}
use beam_init.Base.Text.{Text, text_eq→eq, contains, text_eq, codes}
use beam_init.Api.{exit_code, exit_signal, CreateService}
use beam_init.Services.Types.{
  invalid_credentials, monitor_pipes, stopping, stop, Service, Credentials, ServiceManager,
}
use beam_init.Base.Map
use beam_init.Base.Map.{Map}
use beam_init.Services.Invariant.Create.{create_service_lem, CanCreate, IsRefused}
use beam_init.Services.Invariant.Completion.{NoneStopping}
use beam_init.Server.Completion.{round-break_iff}
use beam_init.Server.Response.{error_response}
use beam_init.Server.Loop.{
  probe_failed, round, break, continue, response, subscription, nothing, wait_service, handle_event,
}
use beam_init.Server.Events.{handle_event-IsHandled}
use beam_init.Server.Response.{Body}
use beam_init.Server.Privacy.{handle_api_command-list, handle_event-foreign, visible}
use beam_init.Services.Outcome.{ok, err}
use beam_init.Api
use beam_init.Services.Spawn.{Os, done, closed}
use beam_init.Services.Manager.{
  new_service, store, create_service, get_service, valid_entry, validate, check_name, new_manager,
}
use beam_init.Server.Command.{
  show, logs, list, stop_service, handle_api_command, restart_service, restart_service, Host,
  create,
}
use beam_init.Server.Loop.{Event, command, run, crash}
use beam_init.Server.Events.{run-IsSettled, IsReliable, run-new_manager}
use beam_init.Services.Invariant.{IsGood, IsSettled, IsValid}
use beam_init.Services.Invariant.Shutdown.{handle_signal-IsFineDown, IsFineDown}
use beam_init.Services.Reap.{shutdown_complete, handle_signal}
use beam_init.Logs.{new}
use beam_init.Services.Growth.{AllEncodable}
use beam_init.Server.Timers.{run-AllEncodable}
use beam_init.Server.Isolation.{handle_api_command-spares}
use beam_init.Services.Service.{is_restart, check_credentials, api_status}
use beam_init.Services.Lifecycle.{terminate_service}
use beam_init.Services.Query.{list_services}

abbrev os : Os
os = record {
  open_pty = λ _. done (record { path = codes "/dev/pts/0" });
  open_log_pipe = λ _. done tt;
  open_pipes = λ _. done tt;
  fork = λ _. done tt;
  report = λ _. closed (done 40);
  clone_pty = λ _. done 7;
  error_text = λ _. codes "error";
}

abbrev pub system : Host
system = record {
  os = os;
  vars = [];
  user_info = λ _. done none;
  read_file = λ _. done (codes "A=1");
  debug_text = λ _. codes "error";
}

abbrev pub alice : Credentials
alice = record { uid = 1000; gid = 1000 }

abbrev init : Credentials
init = record { uid = 0; gid = 0 }

abbrev sleep : CreateService
sleep = record {
  cmd = codes "sleep";
  args = codes "60" ∷ [];
  env = [];
  liveness = none;
  pty = true;
  labels = [];
  graceful_termination_period = 5;
}

abbrev start_up : List Event
start_up =
    command (create (codes "bootstrap") sleep) init
    ∷ command (create (codes "web") sleep) alice
    ∷ []

system-IsReliable : IsReliable os
system-IsReliable = record { log_pipes = λ call. refl; clones = λ call e h. cc }

run-new_manager_example :
    ((run system start_up (new_manager [] 100)).0 ≢ crash)
    × IsValid (run system start_up (new_manager [] 100)).1
run-new_manager_example = run-new_manager system [] 100 start_up system-IsReliable

run-AllEncodable_example : AllEncodable (run system start_up (new_manager [] 100)).1.world.effects
run-AllEncodable_example = run-AllEncodable system [] 100 start_up

abbrev web : Service
web = record {
  config = record {
    cmd = codes "sleep";
    args = [];
    env = (codes "A", codes "1") ∷ [];
    labels = [];
    liveness = none;
    pty = true;
    credentials = alice;
    graceful_termination_period = 5;
  };
  state = record {
    status = stopping (record { main_pid = 40; monitor_tx = some monitor_pipes }) stop none;
    logs = record { queue = new 2; writer = none };
    automatic_restart_attempts = 1;
    liveness_probe = none;
    publisher = record { latest = Api.ServiceStatus.stopping 40 false false; sent = [] };
  };
}

-- One service that is stopping.
abbrev manager : Bool → ServiceManager
manager down = record {
  services = (codes "web", web) ∷ [];
  user_env_files = [];
  log_retention_lines = 2;
  shutdown = down;
  world = record { effects = []; next_id = 3 };
}

web-IsGood : (down : Bool) → IsGood down (codes "web") web
unfolding check_name validate valid_entry api_status contains
web-IsGood down = record {
  named = refl;
  env_valid = refl;
  published = refl;
  probed = refl;
  connected = tt;
  settled = λ d. refl;
}

manager-web : (down : Bool) → Map.get (codes "web") (manager down).services ≡ some web
unfolding Map.get text_eq
manager-web down = refl

manager-IsValid : (down : Bool) → IsValid (manager down)
unfolding Map.get
manager-IsValid down = record {
  sorted = (tt, tt);
  each = λ k s h. elim (Bool-cases (text_eq (codes "web") k)) [
    | inl e ↦
        subst₂ (IsGood down) (text_eq→eq (codes "web") k e) (ground (arith, h, e)) (web-IsGood down)
    | inr e ↦ absurd (ground arith)
  ];
}

handle_signal-IsFineDown_example :
    IsFineDown (manager false) (handle_signal os 2 [] (manager false))
handle_signal-IsFineDown_example =
    handle_signal-IsFineDown os 2 [] (manager false) (λ call. refl) (manager-IsValid false)

abbrev bob : Credentials
bob = record { uid = 1001; gid = 1001 }

-- Another user asks for the removal of the service.
handle_api_command-spares_example :
    (Map.get
        (codes "web")
        (handle_api_command system (stop_service (codes "web") true) bob (manager false)).1.services
      ≡ some web)
    × (codes "web" ≡ codes "web"
        → (handle_api_command system (stop_service (codes "web") true) bob (manager false)).1
          ≡ manager false)
handle_api_command-spares_example =
    handle_api_command-spares system (stop_service (codes "web") true) bob (manager false)
      (codes "web") web (λ call. refl) (manager-IsValid false) (manager-web false)
      (inr (λ e. omega (arith, e), λ e. omega (arith, e)))

-- During a shutdown the service's user asks for a restart, which is refused.
abbrev late : List Event
late = command (restart_service (codes "web")) alice ∷ command list bob ∷ []

run-IsSettled_example :
    ((run system late (manager true)).1.shutdown ≡ true) × IsSettled web.state.status
unfolding run Map.get handle_api_command get_service text_eq check_credentials terminate_service
    is_restart shutdown_complete list_services
run-IsSettled_example =
    run-IsSettled system late (manager true) (codes "web") web system-IsReliable
      (manager-IsValid true) refl refl

handle_api_command-list_example :
    (statuses : Map Api.ServiceStatus) × (handle_api_command system list bob (manager false)
      ≡ (ok (Body.statuses statuses), manager false))
    × ((name : Text) → Map.get name statuses ≡ visible bob (Map.get name (manager false).services))
handle_api_command-list_example =
    handle_api_command-list system bob (manager false) (manager-IsValid false)

handle_event-foreign_example :
    (handle_event system (command (show (codes "web")) bob) (manager false)
      ≡ (response (error_response invalid_credentials), false, manager false))
    × (handle_event system (command (logs (codes "web") true) bob) (manager false)
        ≡ (response (error_response invalid_credentials), false, manager false))
    × (handle_event system (wait_service (codes "web") bob) (manager false)
        ≡ (subscription (err invalid_credentials), false, manager false))
    × (handle_event system (Event.pty (codes "web") bob) (manager false)
        ≡ (nothing, false, manager false))
handle_event-foreign_example =
    handle_event-foreign system bob (manager false) (codes "web") web true (manager-web false)
      (λ e. omega (arith, e), λ e. omega (arith, e))

create_service_lem_example :
    (((create_service (codes "web") web.config (manager false)).0 ≡ ok tt)
      ↔ CanCreate (codes "web") web.config (manager false))
    × (IsRefused (codes "web") web.config (manager false)
        ⊎ (create_service (codes "web") web.config (manager false) ≡ (
          ok tt,
          store
              (codes "web")
              (new_service web.config (manager false))
              (manager false).world
              (manager false),
        )))
create_service_lem_example = create_service_lem (codes "web") web.config (manager false)

late_down : (round system (probe_failed (codes "web")) (manager true)).1.shutdown ≡ true
unfolding round
late_down =
    (handle_event-IsHandled system (probe_failed (codes "web")) (manager true) system-IsReliable
        (manager-IsValid true)).stays_down
      refl

round-break_iff_example :
    (((round system (probe_failed (codes "web")) (manager true)).0 ≡ break)
      ↔ NoneStopping (round system (probe_failed (codes "web")) (manager true)).1)
    × (((round system (probe_failed (codes "web")) (manager true)).0 ≡ break)
        ⊎ ((round system (probe_failed (codes "web")) (manager true)).0 ≡ continue))
round-break_iff_example =
    round-break_iff system (probe_failed (codes "web")) (manager true) system-IsReliable
      (manager-IsValid true) late_down
