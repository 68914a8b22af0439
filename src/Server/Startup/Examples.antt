-- ===== src/Server/Startup/Examples.antt =====
-- The start of a service and of the program at concrete inputs: no call fails, or only the
-- execution does.
use beam_init.Base.{ℕ, ◌≡◌, ◌↔◌, refl, none, some, List, [], ◌∷◌, Option}
use beam_init.Base.Text.{Text, codes}
use beam_init.Services.Spawn.{closed, Report, done}
use beam_init.Services.Spawn.Child.{
  Sys, Call, executed, execvp, log, pty, children, report, write_errno,
}
use beam_init.Services.Spawn.Calls.{NoneFails, after}
use beam_init.Services.Spawn.Preparation.{preparation}
use beam_init.Services.Spawn.Privileges.{children-executed_iff, report-children_iff}
use beam_init.Server.Command.{Host}
use beam_init.Server.Startup.{Cli, Setup}
use beam_init.Server.Examples.{system, alice}
use beam_init.Services.Spawn.Started.{report-children-blocks, first_child}

abbrev working : Sys
working = record {
  error = λ before call. none;
  nofile_hard_limit = 4096;
  service_pid = 40;
  monitor_pid = 41;
}

-- The program is not there (ENOENT).
abbrev missing : List Call → Call → Option ℕ
missing before (execvp argv envp) = some 2
missing before call = none

abbrev without_program : Sys
without_program = record {
  error = missing;
  nofile_hard_limit = 4096;
  service_pid = 40;
  monitor_pid = 41;
}

abbrev argv : List Text
argv = codes "sleep" ∷ codes "60" ∷ []

children-executed_iff_example :
    ((children working pty argv [] alice).0
      ≡ executed (execvp argv [] ∷ after (preparation working pty alice) []))
    ↔ (NoneFails working (preparation working pty alice) []
        × (working.error (after (preparation working pty alice) []) (execvp argv []) ≡ none)
        × ((execvp argv [] ∷ after (preparation working pty alice) [])
            ≡ (execvp argv [] ∷ after (preparation working pty alice) [])))
children-executed_iff_example =
    children-executed_iff working argv [] alice pty
      (execvp argv [] ∷ after (preparation working pty alice) [])

report-children_iff_example :
    (report (children without_program log argv [] alice) ≡ some (Report.exec_failed 2)) ↔ (
      NoneFails without_program (preparation without_program log alice) []
      × (missing (after (preparation without_program log alice) []) (execvp argv []) ≡ some 2)
      × (missing (after (preparation without_program log alice) []) (write_errno 2) ≡ none))
report-children_iff_example = report-children_iff without_program argv [] alice log 2

abbrev host : Host
host = record system { os = record (system.os) { report = λ call. closed (done 40) } }

abbrev setup : Setup
setup = record {
  getrlimit = done tt;
  setrlimit = done tt;
  signal_stream = done tt;
  ptystore = done tt;
  api_socket = done tt;
}

abbrev cli : Cli
cli = record {
  environment_file = [];
  bootstrap_graceful_termination_period = 300;
  log_retention_lines = 100;
  command = argv;
}

-- The second fork of the child fails (EAGAIN).
abbrev no_fork : List Call → Call → Option ℕ
no_fork before Call.fork = some 11
no_fork before call = none

abbrev without_fork : Sys
without_fork = record {
  error = no_fork;
  nofile_hard_limit = 4096;
  service_pid = 40;
  monitor_pid = 41;
}

report-children-blocks_example :
    (report (children without_fork log argv [] alice) ≡ none)
    ↔ (¬ NoneFails without_fork (first_child log alice) [])
report-children-blocks_example =
    report-children-blocks without_fork argv [] alice log (λ before. refl)
