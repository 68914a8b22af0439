-- ===== src/Ctl/Main.antt =====
-- `main` of beam-init/src/bin/beamctl.rs. The name that `start` makes up and the version of beamctl
-- are arguments; the generation of completions is clap's.
use beam_init.Base.{
  ℕ, ◌*◌, ◌^◌, ◌++◌, Bool, true, false, Option, none, some, List, [], ◌∷◌, if◌then◌else◌,
}
use mathlib.Core.Option
use beam_init.Base.Text.{Text, codes}
use beam_init.Api.{Probe}
use beam_init.Api.Kind.{ServiceStatusKind}
use beam_init.Client.{create_service, stop_service, restart_service, freeze_service, thaw_service}
use beam_init.Ctl.Select.{from_iter}
use beam_init.Ctl.Run.{Client, Session, Run, panicked, and_then, print, eprint, show_error_and_exit}
use beam_init.Ctl.Commands
use beam_init.Ctl.Commands.{
  act, act_on, list_services, show_service, matched_name, select, connect, display_service,
  display_entry, display_entries,
}

-- The options of the liveness probe; durations are counted in seconds.
pub record LivenessProbe : Type 0 where
  pub port : ℕ
  pub path : Text
  pub max_retries : ℕ
  pub initial_delay : ℕ
  pub period : ℕ
  pub failure_threshold : ℕ

unfoldable pub to_probe : LivenessProbe → Probe
to_probe p = record {
  path = p.path;
  port = p.port;
  max_retries = p.max_retries;
  initial_delay = p.initial_delay * 10 ^ 9;
  period = p.period * 10 ^ 9;
  failure_threshold = p.failure_threshold;
}

-- The subcommands but that for completions.
pub data Command : Type 0 where
  start :
      (name : Option Text) (labels : List (Text × Text)) (pty : Bool) (command : List Text)
      (liveness : Option LivenessProbe) (env : List (Text × Text)) (graceful_termination_period : ℕ)
      → Command
  stop : (name : Option Text) (selector : List (Text × Text)) (prune : Bool) → Command
  restart freeze thaw : (name : Option Text) (selector : List (Text × Text)) → Command
  logs : (name : Text) (follow : Bool) → Command
  show attach : (name : Text) → Command
  list : (selector : List (Text × Text)) → Command
  wait : (name : Text) (state : ServiceStatusKind) (timeout : Option ℕ) → Command
  version : Command

unfoldable pub name_or : Text → Option Text → Text
name_or generated none = generated
name_or generated (some name) = name

unfoldable pub display_version : Text → Text × Text → Text
display_version program (number, sha) =
    program ++ (codes ": Version: " ++ (number ++ (codes " - SHA: " ++ (sha ++ codes "\n"))))

-- A command once the client is there. `generated` is the result of `gen_name`, `version` the two
-- texts of beamctl's version. `json` is the global option.
unfoldable pub run_command {ℓ} :
    {S : Type ℓ}
    → Client S
    → Text
    → Text × Text
    → (json : Bool) → Command
    → Session S
    → Run S (Unit {0})
unfolding act_on name_or display_service display_entry display_entries select act list_services
    show_service matched_name
run_command client generated own json (start name labels pty [] liveness env grace) s = panicked s
run_command client generated own json (start name labels pty (cmd ∷ args) liveness env grace) s =
    and_then
      (act client
        (create_service (name_or generated name) (record {
          cmd = cmd;
          args = args;
          env = from_iter env;
          liveness = Option.map to_probe liveness;
          pty = pty;
          labels = from_iter labels;
          graceful_termination_period = grace;
        }))
        s)
      (λ u t.
        and_then (eprint (codes "Started service " ++ (name_or generated name ++ codes "\n")) t)
          (λ v. Commands.attach_if client pty (name_or generated name)))
run_command client generated own json (stop name selector prune) s =
    act_on client name selector (λ n. stop_service n prune) s
run_command client generated own json (restart name selector) s =
    act_on client name selector restart_service s
run_command client generated own json (freeze name selector) s =
    act_on client name selector freeze_service s
run_command client generated own json (thaw name selector) s =
    act_on client name selector thaw_service s
run_command client generated own json (logs name true) s =
    and_then (matched_name client name s) (λ found t.
      and_then (show_error_and_exit client.status_text t (client.follow_logs found t.server)) print)
run_command client generated own json (logs name false) s =
    and_then (matched_name client name s) (λ found t.
      and_then (show_error_and_exit client.status_text t (client.logs found t.server)) print)
run_command client generated own json (attach name) s =
    and_then (matched_name client name s) (λ found. Commands.attach client found)
run_command client generated own json version s =
    and_then (print (display_version (codes "beamctl") own) s) (λ u t.
      and_then (show_error_and_exit client.status_text t (client.version t.server))
        (λ v. print (display_version (codes "beam-init") v)))
run_command client generated own json (show name) s =
    and_then (matched_name client name s) (λ found t.
      and_then (show_service client found t) (λ service. print (
        if json then client.service_json service ++ codes "\n" else display_service found service)))
run_command client generated own json (list selector) s =
    and_then (list_services client s) (λ services t.
      and_then (select client selector services t) (λ kept.
        print (if json then client.services_json kept ++ codes "\n" else display_entries kept)))
run_command client generated own json (wait name state timeout) s =
    and_then (matched_name client name s) (λ found t.
      and_then
        (show_error_and_exit client.status_text t
          (client.wait_service_state found state timeout t.server))
        (λ status.
          print
            (if json then client.status_json status ++ codes "\n" else display_entry found status)))

unfoldable pub main {ℓ} :
    {S : Type ℓ}
    → Client S
    → Text
    → Text × Text
    → (json : Bool) → Command
    → Session S
    → Run S (Unit {0})
unfolding connect run_command
main client generated own json command s =
    and_then (connect client s) (λ u. run_command client generated own json command)
