-- ===== src/Services/Examples.antt =====
-- The waiting client, the liveness probe and the monitor commands at concrete inputs.
use beam_init.Base.{
  ◌==◌, ◌≤◌, false, ◌++◌, refl, ◌||◌, ◌≡◌, ◌↔◌, some, none, List, [], ◌∷◌, ltb, if◌then◌else◌,
  Option, ℕ,
}
use beam_init.Base.Text.{Text, contains, codes}
use beam_init.Base.Map.{Map}
use beam_init.Services.AfterStop.{merge_all, any_prune, last_deliberate, merge_all_lem}
use beam_init.Services.Spawn.Entries.{IsPassed, validate-IsPassed}
use beam_init.Services.Manager.{validate, valid_entry}
use beam_init.Services.Service.{is_prune}
use beam_init.Api.{exit_signal, Probe, ServiceStatus, exited, exit_code, running, stopped}
use beam_init.Api.Kind.{ServiceStatusKind}
use beam_init.Logs.{new}
use beam_init.Services.Types.{
  background, MonitorCommand, signal, signal, AfterStop, stop, prune, restart, user, automatic,
}
use beam_init.Services.Spawn.Handshake.{
  state, returned, reads_error, Monitor, Process, Reaches, here, step, closes, sets_group,
  writes_pid, drops_barrier, executes, error_ends, pid_read, passes, HasClosed, HasWritten,
  ClosesError, Releases,
}
use beam_init.Services.Spawn.Progress.{IsLive, Reaches-IsLive}
use beam_init.Services.Liveness.{
  run_liveness_probe, run_liveness_probe_lem, longest_run, limit, verdict_at_limit, Verdict,
}
use beam_init.Services.Wait.{IsTold, wait_service-publish_all}
use beam_init.Services.Monitor.Process.{
  Exit, seen, ended_by, Round, Brings, command, children_only, nothing, monitor, exited,
  all_actions, monitor-exited,
}
use beam_init.Services.Monitor.{ser, de, ser-de_iff}

abbrev probe : Probe
probe = record {
  path = codes "/health";
  port = 80;
  max_retries = 5;
  initial_delay = 0;
  period = 1000000000;
  failure_threshold = 2;
}

abbrev answers : List (Option ℕ)
answers = some 503 ∷ some 200 ∷ none ∷ some 500 ∷ []

run_liveness_probe_lem_example : (run_liveness_probe probe 0 answers (new 10)).0 ≡ (
    if ltb (longest_run 0 answers) (limit probe) then Verdict.probing else verdict_at_limit probe)
run_liveness_probe_lem_example = run_liveness_probe_lem probe answers (new 10)

abbrev statuses : List ServiceStatus
statuses = running 40 none ∷ running 40 none ∷ exited (exit_code 0) ∷ []

wait_service-publish_all_example :
    IsTold ServiceStatusKind.exited statuses (record { latest = stopped; sent = [] })
wait_service-publish_all_example =
    wait_service-publish_all ServiceStatusKind.exited statuses
      (record { latest = stopped; sent = [] })

ser-de_iff_example : (ser (signal 15) ≡ some 15) ↔ (de 15 ≡ some (signal 15))
ser-de_iff_example = ser-de_iff (signal 15) 15

abbrev requests : List AfterStop
requests = restart user ∷ restart automatic ∷ stop ∷ restart automatic ∷ []

merge_all_lem_example :
    merge_all stop requests
    ≡ (if is_prune stop || any_prune requests then prune else last_deliberate stop requests)
merge_all_lem_example = merge_all_lem stop requests

abbrev env : Map Text
env = (codes "A", codes "x=y") ∷ (codes "B", []) ∷ []

validate-IsPassed_example : IsPassed env
unfolding validate valid_entry contains
validate-IsPassed_example = validate-IsPassed env refl

-- The manager interrupts the service and takes its terminal back; another child ends, then the
-- service.
abbrev sent : List MonitorCommand
sent = signal 2 ∷ background ∷ []

abbrev rounds : List Round
rounds =
    record { command = some 2; hung_up = false; children = [] }
    ∷ record { command = none; hung_up = false; children = (8, exit_code 1) ∷ [] }
    ∷ record { command = some 254; hung_up = false; children = [] }
    ∷ []

rounds-Brings : Brings 7 sent rounds
unfolding ser
rounds-Brings =
    command (signal 2) 2 [] refl tt
      (children_only ((8, exit_code 1) ∷ []) (refl, tt) (command background 254 [] refl tt nothing))

monitor-exited_example :
    (end : Exit) × (monitor
        (λ done action. false)
        7
        6
        (rounds
          ++ record {
            command = none;
            hung_up = false;
            children = [] ++ (7, exit_signal 2 false) ∷ [];
          }
            ∷ [])
        []
      ≡ exited end (all_actions 7 6 sent []))
    × (seen (λ sig. sig == 2) end ≡ ended_by (exit_signal 2 false))
monitor-exited_example =
    monitor-exited (λ done action. false) 7 6 (λ done action. refl) sent rounds [] [] []
      (exit_signal 2 false) (λ sig. sig == 2) rounds-Brings tt refl

-- A start of a service in which nothing fails.
started_run :
    Reaches 8
      (state reads_error Monitor.forked Process.forked)
      (state returned Monitor.watches Process.executed)
started_run =
    step
      (step
        (step
          (step (step (step (step (step here closes) sets_group) writes_pid) drops_barrier)
            executes)
          (error_ends HasClosed.wrote_pid ClosesError.executed))
        (pid_read HasWritten.wrote_pid))
      (passes Releases.executed)

Reaches-IsLive_example :
    (8 ≤ 10)
    × IsLive (state returned Monitor.watches Process.executed)
    × (Monitor.watches ≡ Monitor.watches → (returned ≡ returned) × Releases Process.executed)
Reaches-IsLive_example = Reaches-IsLive 8 returned Monitor.watches Process.executed started_run
