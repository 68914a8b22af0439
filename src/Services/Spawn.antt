-- ===== src/Services/Spawn.antt =====
-- `spawn_service` of beam-init/src/spawn.rs, as the parent process runs it.
-- `Os` is the operating system: every call is numbered, so that no two calls need agree.
pub mod Entries
pub mod Child
pub mod Handshake
pub mod Progress
pub mod Calls
pub mod Preparation
pub mod Privileges
pub mod Started
use beam_init.Base.{ℕ, Bool, Option, none, some, List, [], ◌∷◌, ◌++◌, if◌then◌else◌}
use beam_init.Base.Text.{Text, codes, contains}
use beam_init.Base.Map.{Map}
use beam_init.Services.Types.{
  IoError, ServiceConfig, Pty, MonitorCommandSender, monitor_pipes, World, fork_service,
}
use beam_init.Services.Service.{emit}

pub data IoResult {ℓ} (A : Type ℓ) : Type ℓ where
  done : A → IoResult A
  failed : IoError → IoResult A

infixl 5 ◌>>=◌ ◌>>◌
abbrev pub ◌>>=◌ {ℓ κ} : {A : Type ℓ} {B : Type κ} → IoResult A → (A → IoResult B) → IoResult B
done a >>= f = f a
failed e >>= f = failed e

abbrev pub ◌>>◌ {ℓ} : {B : Type ℓ} → IoResult (Unit {0}) → IoResult B → IoResult B
m >> k = m >>= λ _. k

-- What the parent reads from the error pipe: its end (so the exec succeeded), and then the process
-- id from the other pipe; or the error number that the child wrote; or an error. Where that read
-- never returns (Services/Spawn/Child) there is no report.
pub data Report : Type 0 where
  closed : IoResult ℕ → Report
  exec_failed : (errno : ℕ) → Report
  unreadable : IoError → Report

pub record Os : Type 0 where
  pub open_pty : ℕ → IoResult Pty
  pub open_log_pipe : ℕ → IoResult (Unit {0})
  pub open_pipes : ℕ → IoResult (Unit {0})
  pub fork : ℕ → IoResult (Unit {0})
  pub report : ℕ → Report
  pub clone_pty : ℕ → IoResult ℕ
  pub error_text : ℕ → Text

-- `CString::new(text)?`: `NulError` becomes an `io::Error` without an error number.
abbrev nul_error : IoError
nul_error = record { raw_os_error = none; message = codes "data provided contains a nul byte" }

unfoldable pub c_string : Text → IoResult Text
c_string text = if contains 0 text then failed nul_error else done text

unfoldable pub c_strings : List Text → IoResult (List Text)
unfolding c_string
c_strings [] = done []
c_strings (x ∷ xs) = do y ← c_string x; ys ← c_strings xs; done (y ∷ ys)

unfoldable pub env_entries : Map Text → List Text
env_entries [] = []
env_entries ((k, v) ∷ env) = (k ++ (b'=' ∷ v)) ∷ env_entries env

unfoldable pub monitor : Bool → Option MonitorCommandSender
monitor has_ctty = if has_ctty then some monitor_pipes else none

unfoldable pub reported : Os → Bool → Report → IoResult (ℕ × Option MonitorCommandSender)
unfolding monitor
reported os has_ctty (closed (done pid)) = done (pid, monitor has_ctty)
reported os has_ctty (closed (failed e)) = failed e
reported os has_ctty (exec_failed errno) =
    failed (record { raw_os_error = some errno; message = os.error_text errno })
reported os has_ctty (unreadable e) = failed e

-- The C strings of the call: the command with its arguments, and the environment.
unfoldable pub exec_strings : ServiceConfig → IoResult (List Text × List Text)
unfolding c_strings env_entries
exec_strings config = do
  cmd ← c_string config.cmd
  args ← c_strings config.args
  envp ← c_strings (env_entries config.env)
  done (cmd ∷ args, envp)

-- `has_ctty` is whether the sink is a terminal. The result comes with the world after the call,
-- in which the child was forked unless an earlier step failed.
unfoldable pub forked :
    Os
    → ServiceConfig
    → Bool
    → List Text × List Text
    → World
    → IoResult (Unit {0})
    → IoResult (ℕ × Option MonitorCommandSender) × World
unfolding emit reported
forked os config has_ctty (argv, envp) w (failed e) = (failed e, w)
forked os config has_ctty (argv, envp) w (done u) = (
  reported os has_ctty (os.report w.next_id),
  emit (fork_service argv envp has_ctty config.credentials) w,
)

unfoldable pub piped :
    Os
    → ServiceConfig
    → Bool
    → World
    → IoResult (List Text × List Text)
    → IoResult (ℕ × Option MonitorCommandSender) × World
unfolding forked
piped os config has_ctty w (failed e) = (failed e, w)
piped os config has_ctty w (done strings) =
    forked os config has_ctty strings w (do os.open_pipes w.next_id; os.fork w.next_id)

unfoldable pub spawn_service :
    Os → ServiceConfig → Bool → World → IoResult (ℕ × Option MonitorCommandSender) × World
unfolding exec_strings piped
spawn_service os config has_ctty w = piped os config has_ctty w (exec_strings config)
