-- ===== src/Services/Monitor/Process.antt =====
-- The monitor process of beam-init/src/spawn.rs: its loop, one round for each return of `poll`, and
-- `MonitorCommandSender::send`, which waits for the byte that the monitor writes after a command.
-- What the system calls return is an argument.
use beam_init.Base.{
  ◌∙◌, ◌⊎◌, inl, inr, ℕ, ◌≡◌, refl, Bool, true, false, Option, none, some, List, [], ◌∷◌, ◌++◌,
  ◌==◌, if◌then◌else◌, arith,
}
use beam_init.Api.{ExitStatus, exit_code, exit_signal}
use beam_init.Services.Types.{MonitorCommand, signal, foreground, background}
use beam_init.Services.Monitor.{ser, de, ser-de_iff}

-- The result of a read or a write on a pipe.
pub data PipeResult : Type 0 where
  complete broken_pipe unexpected_eof other_error : PipeResult

-- `MonitorCommandSender::send`: whether it succeeds. A monitor that is gone is no error.
unfoldable pub send : (write read : PipeResult) → Bool
send broken_pipe read = true
send unexpected_eof read = false
send other_error read = false
send complete complete = true
send complete broken_pipe = false
send complete unexpected_eof = true
send complete other_error = false

abbrev sigkill : ℕ
sigkill = 9

abbrev sigcont : ℕ
sigcont = 18

abbrev sigtstp : ℕ
sigtstp = 20

-- What the monitor does: `killpg` on the group of the service, `tcsetpgrp` on its terminal, and the
-- byte that answers a command.
pub data Action : Type 0 where
  killpg : (signal : ℕ) → Action
  tcsetpgrp : (pgid : ℕ) → Action
  answer : Action

-- How the monitor ends itself: by `_exit`, or by `exit_with_signal`, which raises the signal and
-- aborts if that returns.
pub data Exit : Type 0 where
  exit : (code : ℕ) → Exit
  exit_with_signal : (signal : ℕ) → Exit

-- The actions so far, the newest first, and how the process ended if it did. `aborted` is a failed
-- `expect_no_panic` or a byte that is no command.
pub data Monitor : Type 0 where
  looping : List Action → Monitor
  exited : Exit → List Action → Monitor
  aborted : List Action → Monitor

-- What `poll` reports: a byte that can be read from the command pipe, whether that pipe is broken
-- or closed, and the children that `waitpid` returns if the signal descriptor can be read.
pub record Round : Type 0 where
  pub command : Option ℕ
  pub hung_up : Bool
  pub children : List (ℕ × ExitStatus)

abbrev and_then : Monitor → (List Action → Monitor) → Monitor
and_then (looping done) f = f done
and_then (exited end done) f = exited end done
and_then (aborted done) f = aborted done

n_eq_n : (n : ℕ) → (n == n) ≡ true
n_eq_n n = ground arith

module _ (service_pid self_pid : ℕ) where
  -- What a command is for, the newest action first.
  unfoldable pub actions : MonitorCommand → List Action
  actions (signal sig) = answer ∷ killpg sig ∷ []
  actions foreground = answer ∷ killpg sigcont ∷ tcsetpgrp service_pid ∷ []
  actions background = answer ∷ tcsetpgrp self_pid ∷ killpg sigtstp ∷ []

  unfoldable pub all_actions : List MonitorCommand → List Action → List Action
  unfolding actions
  all_actions [] done = done
  all_actions (c ∷ commands) done = all_actions commands (actions c ++ done)

module _ (service_pid : ℕ) where
  -- Children other than the service.
  abbrev pub AllOther : List (ℕ × ExitStatus) → Type 0
  AllOther [] = Unit {0}
  AllOther ((pid, status) ∷ children) = ((pid == service_pid) ≡ false) × AllOther children

  -- Rounds that bring commands, each as the byte that stands for it, and the ends of other children,
  -- together or apart, while beam-init lives.
  pub data Brings : List MonitorCommand → List Round → Type 0 where
    nothing : Brings [] []
    children_only :
        {commands : List MonitorCommand} {rounds : List Round} (children : List (ℕ × ExitStatus))
        → AllOther children
        → Brings commands rounds
        → Brings commands (record { command = none; hung_up = false; children = children } ∷ rounds)
    command :
        {commands : List MonitorCommand} {rounds : List Round} (c : MonitorCommand) (byte : ℕ)
        (children : List (ℕ × ExitStatus))
        → ser c ≡ some byte
        → AllOther children
        → Brings commands rounds
        → Brings
            (c ∷ commands)
            (record { command = some byte; hung_up = false; children = children } ∷ rounds)

-- `status.code()` and `status.signal()`. One of them is there, as `waitpid` reports only ends here, so
-- that the last branch, `_exit(1)`, is not reached.
unfoldable pub exit_for : ExitStatus → Exit
exit_for (exit_code code) = exit code
exit_for (exit_signal sig core_dumped) = exit_with_signal sig

-- `exit_with_signal` of beam-init/src/system/mod.rs: the signal ends the process unless it is blocked
-- or ignored, or has another default; then `abort` ends it, by signal 6. Whether a core is dumped is
-- the system's.
unfoldable pub ending_signal : (is_fatal : ℕ → Bool) → (signal : ℕ) → ℕ
ending_signal is_fatal sig = if is_fatal sig then sig else 6

-- What the parent of the monitor sees: an exit code, or the signal that ended it.
unfoldable pub seen : (is_fatal : ℕ → Bool) → Exit → ℕ ⊎ ℕ
unfolding ending_signal
seen is_fatal (exit code) = inl code
seen is_fatal (exit_with_signal sig) = inr (ending_signal is_fatal sig)

abbrev pub ended_by : ExitStatus → ℕ ⊎ ℕ
ended_by (exit_code code) = inl code
ended_by (exit_signal sig core_dumped) = inr sig

-- A status that the monitor can take over: any code, and any signal that ends the monitor as well.
abbrev pub CanEndBy : (is_fatal : ℕ → Bool) → ExitStatus → Type 0
CanEndBy is_fatal (exit_code code) = Unit {0}
CanEndBy is_fatal (exit_signal sig core_dumped) = is_fatal sig ≡ true

seen-exit_for :
    (is_fatal : ℕ → Bool) (status : ExitStatus)
    → CanEndBy is_fatal status
    → seen is_fatal (exit_for status) ≡ ended_by status
unfolding seen exit_for ending_signal
seen-exit_for is_fatal (exit_code code) h = refl
seen-exit_for is_fatal (exit_signal sig core_dumped) h = rw h refl

-- `fails` says whether a call fails after the actions before it.
module _ (fails : List Action → Action → Bool) (service_pid self_pid : ℕ) where
  -- A call under `expect_no_panic`.
  unfoldable pub perform : Action → List Action → Monitor
  perform action done = if fails done action then aborted done else looping (action ∷ done)

  -- `match cmd` with the answer.
  unfoldable pub execute : Option MonitorCommand → List Action → Monitor
  unfolding perform
  execute none done = aborted done
  execute (some (signal sig)) done = and_then (perform (killpg sig) done) (perform answer)
  execute (some foreground) done =
      and_then (perform (tcsetpgrp service_pid) done)
        (λ done'. and_then (perform (killpg sigcont) done') (perform answer))
  execute (some background) done =
      and_then (perform (killpg sigtstp) done)
        (λ done'. and_then (perform (tcsetpgrp self_pid) done') (perform answer))

  unfoldable pub read_command : Option ℕ → List Action → Monitor
  unfolding execute
  read_command none done = looping done
  read_command (some byte) done = execute (de byte) done

  -- The result of this `killpg` is ignored.
  unfoldable pub on_hang_up : Bool → List Action → Monitor
  on_hang_up false done = looping done
  on_hang_up true done = looping (killpg sigkill ∷ done)

  -- `while let Some((pid, status)) = waitpid(…)`.
  unfoldable pub reap : List (ℕ × ExitStatus) → List Action → Monitor
  unfolding exit_for
  reap [] done = looping done
  reap ((pid, status) ∷ children) done =
      let rest = reap children done in
      if pid == service_pid then exited (exit_for status) done else rest

  unfoldable pub round : Round → List Action → Monitor
  unfolding read_command on_hang_up reap
  round r done =
      and_then (read_command r.command done)
        (λ done'. and_then (on_hang_up r.hung_up done') (reap r.children))

  unfoldable pub monitor : List Round → List Action → Monitor
  unfolding round
  monitor [] done = looping done
  monitor (r ∷ rounds) done = and_then (round r done) (monitor rounds)

  reap-AllOther :
      (children : List (ℕ × ExitStatus)) (done : List Action)
      → AllOther service_pid children
      → reap children done ≡ looping done
  unfolding reap
  reap-AllOther [] done a = refl
  reap-AllOther ((pid, status) ∷ children) done a = rw a.0 (reap-AllOther children done a.1)

  execute-actions :
      ((done : List Action) (a : Action) → fails done a ≡ false)
      → (c : MonitorCommand) (done : List Action)
      → execute (some c) done ≡ looping (actions service_pid self_pid c ++ done)
  unfolding execute perform actions
  execute-actions f (signal sig) done = simp (f)
  execute-actions f foreground done = simp (f)
  execute-actions f background done = simp (f)

  monitor-Brings :
      ((done : List Action) (a : Action) → fails done a ≡ false)
      → (commands : List MonitorCommand) (rounds later : List Round) (done : List Action)
      → Brings service_pid commands rounds
      → monitor (rounds ++ later) done
        ≡ monitor later (all_actions service_pid self_pid commands done)
  unfolding monitor round read_command on_hang_up all_actions
  monitor-Brings f commands rounds later done nothing = refl
  monitor-Brings f commands rounds later done (children_only children a b) =
      rw (reap-AllOther children done a) (monitor-Brings f _ _ later done b)
  monitor-Brings f commands rounds later done (command c byte children e a b) =
      rw
        (
          (ser-de_iff c byte).0 e,
          execute-actions f c done,
          reap-AllOther children (actions service_pid self_pid c ++ done) a,
        )
        (monitor-Brings f _ _ later (actions service_pid self_pid c ++ done) b)

  reap-exited :
      (before after : List (ℕ × ExitStatus)) (status : ExitStatus) (done : List Action)
      → AllOther service_pid before
      → reap (before ++ (service_pid, status) ∷ after) done ≡ exited (exit_for status) done
  unfolding reap
  reap-exited [] after status done a = simp (n_eq_n)
  reap-exited ((pid, s) ∷ before) after status done a =
      rw a.0 (reap-exited before after status done a.1)

  -- If no system call fails and beam-init lives, the monitor does for every command that was sent to
  -- it what the command is for, in their order, with an answer to each, whatever other children end
  -- meanwhile. When the service ends, it ends itself and does nothing more: with the exit code of
  -- the service, or by the signal that ended the service, if this signal ends the monitor too.
  pub monitor-exited :
      ((done : List Action) (a : Action) → fails done a ≡ false)
      → (commands : List MonitorCommand) (rounds later : List Round)
        (before after : List (ℕ × ExitStatus)) (status : ExitStatus) (is_fatal : ℕ → Bool)
      → Brings service_pid commands rounds
      → AllOther service_pid before
      → CanEndBy is_fatal status
      → (end : Exit) × (monitor
            (rounds
              ++ record {
                command = none;
                hung_up = false;
                children = before ++ (service_pid, status) ∷ after;
              }
                ∷ later)
            []
          ≡ exited end (all_actions service_pid self_pid commands []))
        × (seen is_fatal end ≡ ended_by status)
  unfolding monitor round read_command on_hang_up
  monitor-exited f commands rounds later before after status is_fatal b a c = (
    exit_for status,
    monitor-Brings f commands rounds _ [] b
        ∙ rw (reap-exited before after status (all_actions service_pid self_pid commands []) a)
            refl,
    seen-exit_for is_fatal status c,
  )
