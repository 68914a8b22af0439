-- ===== src/Services/Spawn/Started.antt =====
-- What `spawn_service` reads when the program of the service is executed (Services/Spawn/Child).
use beam_init.Base.{
  ◌∙◌, ◌≢◌, ◌↔◌, ℕ, Option, none, some, List, [], ◌∷◌, ◌≡◌, refl, sym, ap, subst, inl, inr,
}
use beam_init.Base.Text.{Text}
use beam_init.Services.Types.{Credentials}
use beam_init.Services.Spawn.{closed, done}
use beam_init.Services.Spawn.Child.{
  signal_fd, block_sigchld, sigchld_set, dup_pty, chown_pty, stat_pty, open_pty_peer, unlock_pty,
  before_fork, dup_log, setsid, service_process, reported, restore_sigmask, report, children,
  after_fork, perform, pid_written, written, expected, Sink, log, pty, write_pid, Sys, Child, Call,
  ◌>=◌, going, died, executed,
}
use beam_init.Services.Spawn.Calls.{NoneFails, run, run_cases}
use beam_init.Services.Spawn.Preparation.{signals, stdioe, session, before_fork-run}

-- The calls of the first child up to its fork.
unfoldable pub first_child : Sink → Credentials → List Call
first_child log credentials = restore_sigmask ∷ setsid ∷ dup_log 1 ∷ dup_log 2 ∷ Call.fork ∷ []
first_child pty credentials =
    restore_sigmask
    ∷ setsid
    ∷ unlock_pty
    ∷ open_pty_peer
    ∷ stat_pty
    ∷ chown_pty credentials.uid
    ∷ dup_pty 0
    ∷ dup_pty 1
    ∷ dup_pty 2
    ∷ sigchld_set
    ∷ block_sigchld
    ∷ signal_fd
    ∷ Call.fork
    ∷ []

module _ (sys : Sys) (argv envp : List Text) (credentials : Credentials) where
  -- The process that beam-init takes for that of the service.
  abbrev pub main_pid : Sink → ℕ
  main_pid log = sys.service_pid
  main_pid pty = sys.monitor_pid

  data IsUnderway : Child → Type 0 where
    goes : (calls : List Call) → IsUnderway (going calls)
    ended : (calls : List Call) → IsUnderway (died calls)

  run-IsUnderway : (calls before : List Call) → IsUnderway (run sys (going before) calls)
  run-IsUnderway calls before = elim (run_cases sys calls before) [
    | inl (_, e) ↦ subst IsUnderway (sym e) (goes _)
    | inr (_, (made, e)) ↦ subst IsUnderway (sym e) (ended made)
  ]

  perform-IsUnderway : (call : Call) (c : Child) → IsUnderway c → IsUnderway (c >= perform sys call)
  unfolding perform run
  perform-IsUnderway call c (goes calls) = run-IsUnderway (call ∷ []) calls
  perform-IsUnderway call c (ended calls) = ended calls

  pid-written :
      (sink : Sink) (calls : List Call)
      → ((before : List Call) → sys.error before (write_pid (main_pid sink)) ≡ none)
      → pid_written sys sink calls ≡ some (main_pid sink)
  unfolding pid_written written perform
  pid-written log calls wrote =
      ap (λ e. written sys sys.service_pid (expected sys e (write_pid sys.service_pid) calls))
        (wrote calls)
  pid-written pty calls wrote =
      ap (λ e. written sys sys.monitor_pid (expected sys e (write_pid sys.monitor_pid) calls))
        (wrote calls)

  report-executed :
      (c : Child) (calls : List Call) (pid : Option ℕ) (n : ℕ)
      → c ≡ executed calls
      → pid ≡ some n
      → report (c, pid) ≡ some (closed (done n))
  unfolding report
  report-executed c calls pid n e f = rw (e, f) refl

  report-after_fork :
      (sink : Sink) (calls : List Call) (c : Child)
      → IsUnderway c
      → ((before : List Call) → sys.error before (write_pid (main_pid sink)) ≡ none)
      → (after_fork sys sink argv envp credentials c).0 ≡ executed calls
      → report (after_fork sys sink argv envp credentials c) ≡ some (closed (done (main_pid sink)))
  unfolding after_fork
  report-after_fork sink calls c (goes before) wrote e =
      report-executed _ calls _ _ e (pid-written sink before wrote)
  report-after_fork sink calls c (ended before) wrote e = absurd cc

  -- If the program of the service is executed and the process id can be written, then `spawn_service`
  -- succeeds: the process is the service, or the monitor where the sink is a terminal.
  pub report-children :
      (sink : Sink) (calls : List Call)
      → ((before : List Call) → sys.error before (write_pid (main_pid sink)) ≡ none)
      → (children sys sink argv envp credentials).0 ≡ executed calls
      → report (children sys sink argv envp credentials) ≡ some (closed (done (main_pid sink)))
  unfolding children
  report-children sink calls wrote e =
      report-after_fork sink calls _
        (perform-IsUnderway Call.fork _ (
          subst IsUnderway (sym (before_fork-run sys argv envp credentials sink))
            (run-IsUnderway _ [])))
        wrote e

  -- The first child with its fork.
  forked-run :
      (sink : Sink)
      → (before_fork sys sink credentials.uid [] >= perform sys Call.fork)
        ≡ run sys (going []) (first_child sink credentials)
  unfolding run first_child session stdioe signals
  forked-run log =
      ap (λ c. c >= perform sys Call.fork) (before_fork-run sys argv envp credentials log)
  forked-run pty =
      ap (λ c. c >= perform sys Call.fork) (before_fork-run sys argv envp credentials pty)

  report-some : (c : Child) (pid : ℕ) → report (c, some pid) ≢ none
  unfolding report
  report-some (going calls) pid e = cc
  report-some (died calls) pid e = cc
  report-some (executed calls) pid e = cc
  report-some (reported errno calls) pid e = cc

  report-going :
      (sink : Sink) (calls : List Call) (c : Child)
      → c ≡ going calls
      → ((before : List Call) → sys.error before (write_pid (main_pid sink)) ≡ none)
      → report (after_fork sys sink argv envp credentials c) ≢ none
  unfolding after_fork
  report-going sink calls c e wrote =
      subst (λ c. report (after_fork sys sink argv envp credentials c) ≢ none) (sym e)
        (subst (λ pid. report (service_process sys sink argv envp credentials calls, pid) ≢ none)
          (sym (pid-written sink calls wrote)) (report-some _ (main_pid sink)))

  report-died :
      (sink : Sink) (made : List Call) (c : Child)
      → c ≡ died made
      → report (after_fork sys sink argv envp credentials c) ≡ none
  unfolding after_fork report
  report-died sink made c e = ap (λ c. report (after_fork sys sink argv envp credentials c)) e

  -- If the process id can be written, then `spawn_service` never returns if and only if one of the
  -- calls of the first child fails, up to its fork: in the terminal, in the session, or in the fork.
  pub report-children-blocks :
      (sink : Sink)
      → ((before : List Call) → sys.error before (write_pid (main_pid sink)) ≡ none)
      → (report (children sys sink argv envp credentials) ≡ none)
        ↔ (¬ NoneFails sys (first_child sink credentials) [])
  unfolding children
  report-children-blocks sink wrote = elim (run_cases sys (first_child sink credentials) []) [
    | inl (ready, e) ↦ (
      λ h. absurd (report-going sink _ _ (forked-run sink ∙ e) wrote h),
      λ fails. absurd (fails ready),
    )
    | inr (fails, (made, e)) ↦ (λ h. fails, λ h. report-died sink made _ (forked-run sink ∙ e))
  ]
