-- ===== src/Services/Spawn/Preparation.antt =====
-- The calls that prepare a service for its execution in the children of `spawn_service`
-- (Services/Spawn/Child), as one list.
use beam_init.Base.{List, [], ◌∷◌, ◌++◌, min, ◌≡◌, refl, ap, ◌∙◌}
use beam_init.Base.Text.{Text}
use beam_init.Services.Types.{Credentials}
use beam_init.Services.Spawn.Child.{
  after_fork, make_tty, set_stdioe, service_process, children, before_fork, exec, set_creds,
  exec_with_creds_and_err_pipe, log, pty, reported, unblock_sigchld, signal_fd, block_sigchld,
  sigchld_set, dup_pty, chown_pty, stat_pty, open_pty_peer, unlock_pty, setuid, setgid,
  clear_groups, close_range, setrlimit, getrlimit, set_process_group, dup_log, setsid, ◌>=◌,
  restore_sigmask, perform, going, executed, died, Sink, Child, Sys, Call,
}
use beam_init.Services.Spawn.Calls.{run, run_bind, run_bind_then}

-- The calls before the execution of the program, in order.
unfoldable pub preparation : Sys → Sink → Credentials → List Call
preparation sys log credentials =
    restore_sigmask
    ∷ setsid
    ∷ dup_log 1
    ∷ dup_log 2
    ∷ Call.fork
    ∷ set_process_group
    ∷ getrlimit
    ∷ setrlimit (min sys.nofile_hard_limit 1024) sys.nofile_hard_limit
    ∷ close_range 3
    ∷ clear_groups
    ∷ setgid credentials.gid
    ∷ setuid credentials.uid
    ∷ []
preparation sys pty credentials =
    restore_sigmask
    ∷ setsid
    ∷ unlock_pty
    ∷ open_pty_peer
    ∷ stat_pty
    ∷ chown_pty credentials.uid
    ∷ dup_pty 0
    ∷ dup_pty 1
    ∷ dup_pty 2
    ∷ sigchld_set
    ∷ block_sigchld
    ∷ signal_fd
    ∷ Call.fork
    ∷ unblock_sigchld
    ∷ set_process_group
    ∷ getrlimit
    ∷ setrlimit (min sys.nofile_hard_limit 1024) sys.nofile_hard_limit
    ∷ close_range 3
    ∷ clear_groups
    ∷ setgid credentials.gid
    ∷ setuid credentials.uid
    ∷ []

module _ (sys : Sys) (argv envp : List Text) (credentials : Credentials) where
  creds : List Call
  creds = clear_groups ∷ setgid credentials.gid ∷ setuid credentials.uid ∷ []

  limits : List Call
  limits =
      getrlimit
      ∷ setrlimit (min sys.nofile_hard_limit 1024) sys.nofile_hard_limit
      ∷ close_range 3
      ∷ []

  exec-run :
      (before : List Call)
      → exec_with_creds_and_err_pipe sys argv envp credentials before
        ≡ (run sys (going before) (limits ++ creds) >= exec sys argv envp)
  unfolding exec_with_creds_and_err_pipe run set_creds limits creds
  exec-run before =
      ap (λ c. c >= exec sys argv envp)
        (run_bind sys (set_creds sys credentials) creds (λ b. refl) (run sys (going before) limits))

  unfoldable pub session : List Call
  session = restore_sigmask ∷ setsid ∷ []

  unfoldable pub stdioe : Sink → List Call
  stdioe log = dup_log 1 ∷ dup_log 2 ∷ []
  stdioe pty =
      unlock_pty
      ∷ open_pty_peer
      ∷ stat_pty
      ∷ chown_pty credentials.uid
      ∷ dup_pty 0
      ∷ dup_pty 1
      ∷ dup_pty 2
      ∷ []

  unfoldable pub signals : Sink → List Call
  signals log = []
  signals pty = sigchld_set ∷ block_sigchld ∷ signal_fd ∷ []

  group : Sink → List Call
  group log = set_process_group ∷ []
  group pty = unblock_sigchld ∷ set_process_group ∷ []

  pub before_fork-run :
      (sink : Sink)
      → before_fork sys sink credentials.uid []
        ≡ run sys (going []) (session ++ (stdioe sink ++ signals sink))
  unfolding before_fork set_stdioe make_tty run session stdioe signals
  before_fork-run log =
      run_bind sys (set_stdioe sys log credentials.uid) (stdioe log) (λ b. refl)
        (run sys (going []) session)
  before_fork-run pty =
      ap (λ c. c >= perform sys sigchld_set >= perform sys block_sigchld >= perform sys signal_fd)
        (run_bind sys (set_stdioe sys pty credentials.uid) (stdioe pty) (λ b. refl)
          (run sys (going []) session))

  service_process-run :
      (sink : Sink) (before : List Call)
      → service_process sys sink argv envp credentials before
        ≡ (run sys (going before) (group sink ++ (limits ++ creds)) >= exec sys argv envp)
  unfolding service_process run group
  service_process-run log before =
      run_bind_then sys (exec sys argv envp)
        (exec_with_creds_and_err_pipe sys argv envp credentials) (limits ++ creds) exec-run
        (run sys (going before) (group log))
  service_process-run pty before =
      run_bind_then sys (exec sys argv envp)
        (exec_with_creds_and_err_pipe sys argv envp credentials) (limits ++ creds) exec-run
        (run sys (going before) (group pty))

  after_fork-child :
      (sink : Sink) (c : Child)
      → (after_fork sys sink argv envp credentials c).0
        ≡ (c >= service_process sys sink argv envp credentials)
  unfolding after_fork
  after_fork-child sink (going calls) = refl
  after_fork-child sink (died calls) = refl
  after_fork-child sink (executed calls) = refl
  after_fork-child sink (reported errno calls) = refl

  forked_run :
      (sink : Sink)
      → (children sys sink argv envp credentials).0 ≡ (
          run sys
            (run sys (going []) (session ++ (stdioe sink ++ signals sink)) >= perform sys Call.fork)
            (group sink ++ (limits ++ creds))
          >= exec sys argv envp)
  unfolding children
  forked_run sink =
      after_fork-child sink _
      ∙ run_bind_then sys (exec sys argv envp) (service_process sys sink argv envp credentials)
          (group sink ++ (limits ++ creds)) (service_process-run sink) _
      ∙ ap
          (λ c.
            run sys (c >= perform sys Call.fork) (group sink ++ (limits ++ creds))
            >= exec sys argv envp)
          (before_fork-run sink)

  -- The child that is to execute the program makes the calls of `preparation` first.
  pub children-run :
      (sink : Sink)
      → (children sys sink argv envp credentials).0
        ≡ (run sys (going []) (preparation sys sink credentials) >= exec sys argv envp)
  unfolding run preparation session stdioe signals group limits creds
  children-run log = forked_run log
  children-run pty = forked_run pty
