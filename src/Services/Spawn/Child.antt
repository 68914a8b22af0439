-- ===== src/Services/Spawn/Child.antt =====
-- The child processes of `spawn_service` in beam-init/src/spawn.rs, with `set_creds` of
-- beam-init/src/api_impl.rs and `make_tty` of beam-init/src/system/pty.rs: the calls that they make
-- up to the execution of the program. What the calls return is an argument.
use beam_init.Base.{ℕ, Option, none, some, List, [], ◌∷◌, min}
use beam_init.Base.Text.{Text}
use beam_init.Services.Types.{Credentials}
use beam_init.Services.Spawn.{Report, done}

-- `set_mask` restores the signal mask of the parent, `set_process_group` is `setpgid(0, 0)`, and
-- `close_range` marks the descriptors from `first` on to be closed on execution.
pub data Call : Type 0 where
  restore_sigmask setsid set_process_group fork getrlimit clear_groups : Call
  sigchld_set block_sigchld signal_fd unblock_sigchld : Call
  unlock_pty open_pty_peer stat_pty : Call
  chown_pty : (uid : ℕ) → Call
  dup_pty dup_log : (fd : ℕ) → Call
  setrlimit : (soft hard : ℕ) → Call
  close_range : (first : ℕ) → Call
  setgid setuid : ℕ → Call
  execvp : (argv envp : List Text) → Call
  write_errno write_pid : ℕ → Call

-- `error` is the error of a call after those before it, if it fails.
pub record Sys : Type 0 where
  pub error : (before : List Call) → Call → Option ℕ
  pub nofile_hard_limit : ℕ
  pub service_pid : ℕ
  pub monitor_pid : ℕ

-- A child with the calls that it made, the newest first: it goes on, it ended with 101 by
-- `expect_no_panic`, it executed the program, or it reported that it could not.
pub data Child : Type 0 where
  going died executed : List Call → Child
  reported : (errno : ℕ) → List Call → Child

infixl 5 ◌>=◌
abbrev pub ◌>=◌ : Child → (List Call → Child) → Child
going calls >= f = f calls
died calls >= f = died calls
executed calls >= f = executed calls
reported errno calls >= f = reported errno calls

-- The sink of the output: a log pipe or a terminal.
pub data Sink : Type 0 where
  log pty : Sink

module _ (sys : Sys) where
  abbrev pub expected : Option ℕ → Call → List Call → Child
  expected none call calls = going (call ∷ calls)
  expected (some errno) call calls = died calls

  -- A call under `expect_no_panic`.
  unfoldable pub perform : Call → List Call → Child
  perform call calls = expected (sys.error calls call) call calls

  -- `PtyClient::make_tty`.
  unfoldable pub make_tty : (uid : ℕ) → List Call → Child
  unfolding perform
  make_tty uid calls =
      perform unlock_pty calls
      >= perform open_pty_peer
      >= perform stat_pty
      >= perform (chown_pty uid)

  -- `Sink::set_stdioe`.
  unfoldable pub set_stdioe : Sink → (uid : ℕ) → List Call → Child
  unfolding make_tty perform
  set_stdioe pty uid calls =
      make_tty uid calls >= perform (dup_pty 0) >= perform (dup_pty 1) >= perform (dup_pty 2)
  set_stdioe log uid calls = perform (dup_log 1) calls >= perform (dup_log 2)

  -- `Credentials::set_creds`.
  unfoldable pub set_creds : Credentials → List Call → Child
  unfolding perform
  set_creds credentials calls =
      perform clear_groups calls
      >= perform (setgid credentials.gid)
      >= perform (setuid credentials.uid)

  unfoldable pub reported_failure : ℕ → Child → Child
  reported_failure errno (going calls) = reported errno calls
  reported_failure errno c = c

  unfoldable pub after_exec : Option ℕ → Call → List Call → Child
  unfolding perform reported_failure
  after_exec none call calls = executed (call ∷ calls)
  after_exec (some errno) call calls = reported_failure errno (perform (write_errno errno) calls)

  unfoldable pub exec : List Text → List Text → List Call → Child
  unfolding after_exec
  exec argv envp calls = after_exec (sys.error calls (execvp argv envp)) (execvp argv envp) calls

  unfoldable pub exec_with_creds_and_err_pipe :
      List Text → List Text → Credentials → List Call → Child
  unfolding perform set_creds exec
  exec_with_creds_and_err_pipe argv envp credentials calls =
      perform getrlimit calls
      >= perform (setrlimit (min sys.nofile_hard_limit 1024) sys.nofile_hard_limit)
      >= perform (close_range 3)
      >= set_creds credentials
      >= exec argv envp

  -- The first child up to its fork.
  unfoldable pub before_fork : Sink → (uid : ℕ) → List Call → Child
  unfolding perform set_stdioe
  before_fork log uid calls = perform restore_sigmask calls >= perform setsid >= set_stdioe log uid
  before_fork pty uid calls =
      perform restore_sigmask calls
      >= perform setsid
      >= set_stdioe pty uid
      >= perform sigchld_set
      >= perform block_sigchld
      >= perform signal_fd

  -- The second child.
  unfoldable pub service_process : Sink → List Text → List Text → Credentials → List Call → Child
  unfolding perform exec_with_creds_and_err_pipe
  service_process log argv envp credentials calls =
      perform set_process_group calls >= exec_with_creds_and_err_pipe argv envp credentials
  service_process pty argv envp credentials calls =
      perform unblock_sigchld calls
      >= perform set_process_group
      >= exec_with_creds_and_err_pipe argv envp credentials

  -- The process id that the first child writes to the parent after its fork: that of the service, or
  -- its own if it stays as the monitor.
  unfoldable pub written : ℕ → Child → Option ℕ
  written pid (going calls) = some pid
  written pid c = none

  unfoldable pub pid_written : Sink → List Call → Option ℕ
  unfolding perform written
  pid_written log calls = written sys.service_pid (perform (write_pid sys.service_pid) calls)
  pid_written pty calls = written sys.monitor_pid (perform (write_pid sys.monitor_pid) calls)

  unfoldable pub after_fork : Sink → List Text → List Text → Credentials → Child → Child × Option ℕ
  unfolding service_process pid_written
  after_fork sink argv envp credentials (going calls) =
      (service_process sink argv envp credentials calls, pid_written sink calls)
  after_fork sink argv envp credentials c = (c, none)

  -- Both children: how the one that is to execute the program ends, and what the other wrote.
  unfoldable pub children : Sink → List Text → List Text → Credentials → Child × Option ℕ
  unfolding before_fork after_fork perform
  children sink argv envp credentials =
      after_fork sink argv envp credentials (before_fork sink credentials.uid [] >= perform fork)

-- What the parent reads. The error pipe ends when both children have closed it, by execution or
-- exit, and has a number if one was written. The parent holds the writing end of the pipe of the
-- process id itself while it reads from it, so that the read does not return, here `none`, if
-- nothing was written.
unfoldable pub report : Child × Option ℕ → Option Report
report (reported errno calls, pid) = some (Report.exec_failed errno)
report (_, some pid) = some (Report.closed (done pid))
report (_, none) = none
