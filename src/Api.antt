-- ===== src/Api.antt =====
-- beam-init-api/src/lib.rs: the types of the requests and responses of the HTTP API, with the
-- conversions and the text forms that the crate implements.
pub mod Equality
pub mod Kind
pub mod SignalName
pub mod Examples
use beam_init.Base.{
  ℕ, zero, suc, ◌+◌, ◌≡◌, Bool, true, false, ◌&&◌, Option, none, some, List, [], ◌∷◌, ◌++◌, ◌==◌,
  if◌then◌else◌, ◌/◌, ◌%◌,
}
use beam_init.Base.Text.{Text, codes, text_eq}
use beam_init.Base.Map.{Map}
use beam_init.Base.Decimal.{decimal}
use SignalName.{signal_name}
use Kind.{ServiceStatusKind}

-- Durations are counted in nanoseconds.
pub record Probe : Type 0 where
  pub path : Text
  pub port : ℕ
  pub max_retries : ℕ
  pub initial_delay : ℕ
  pub period : ℕ
  pub failure_threshold : ℕ

pub record CreateService : Type 0 where
  pub cmd : Text
  pub args : List Text
  pub env : Map Text
  pub liveness : Option Probe
  pub pty : Bool
  pub labels : Map Text
  pub graceful_termination_period : ℕ

-- The standard library's `ExitStatus`, as `waitpid` without `WUNTRACED` and `WCONTINUED` gives it,
-- and the API's type of the same name, to which `From<StdExitStatus>` takes it case by case.
-- Exit codes of a process are 0 to 255, and signal numbers are positive.
pub data ExitStatus : Type 0 where
  exit_code : ℕ → ExitStatus
  exit_signal : (signal : ℕ) (core_dumped : Bool) → ExitStatus

pub data ServiceStatus : Type 0 where
  stopped : ServiceStatus
  running : (main_pid : ℕ) (pty : Option Text) → ServiceStatus
  frozen : (main_pid : ℕ) (pty : Option Text) → ServiceStatus
  stopping : (main_pid : ℕ) (prune will_restart : Bool) → ServiceStatus
  exited : ExitStatus → ServiceStatus
  error : Text → ServiceStatus

pub record Service : Type 0 where
  pub cmd : Text
  pub args : List Text
  pub status : ServiceStatus
  pub automatic_restart_attempts : ℕ
  pub labels : Map Text

unfoldable pub kind : ServiceStatus → ServiceStatusKind
kind stopped = ServiceStatusKind.stopped
kind (running pid pty) = ServiceStatusKind.running
kind (frozen pid pty) = ServiceStatusKind.frozen
kind (stopping pid prune will_restart) = ServiceStatusKind.stopping
kind (exited e) = ServiceStatusKind.exited
kind (error err) = ServiceStatusKind.error

-- `status == other`, derived.
pty_eq : Option Text → Option Text → Bool
pty_eq none none = true
pty_eq none (some q) = false
pty_eq (some p) none = false
pty_eq (some p) (some q) = text_eq p q

bool_eq : Bool → Bool → Bool
bool_eq true b = b
bool_eq false true = false
bool_eq false false = true

exit_eq : ExitStatus → ExitStatus → Bool
unfolding bool_eq
exit_eq (exit_code c) (exit_code d) = c == d
exit_eq (exit_code c) (exit_signal s b) = false
exit_eq (exit_signal s b) (exit_code d) = false
exit_eq (exit_signal s b) (exit_signal t c) = s == t && bool_eq b c

unfoldable pub status_eq : ServiceStatus → ServiceStatus → Bool
unfolding pty_eq bool_eq exit_eq
status_eq stopped stopped = true
status_eq (running p x) (running q y) = p == q && pty_eq x y
status_eq (frozen p x) (frozen q y) = p == q && pty_eq x y
status_eq (stopping p a b) (stopping q c d) = p == q && (bool_eq a c && bool_eq b d)
status_eq (exited e) (exited f) = exit_eq e f
status_eq (error s) (error t) = text_eq s t
status_eq _ _ = false

-- `write!(f, ", pty={}", path.display())`, if there is a path.
display_pty : Option Text → Text
display_pty none = []
display_pty (some path) = codes ", pty=" ++ path

display_bool : Bool → Text
display_bool true = codes "true"
display_bool false = codes "false"

display_signal_name : Option Text → Text
display_signal_name none = []
display_signal_name (some name) = codes " (" ++ (name ++ codes ")")

-- `impl Display for ServiceStatus`.
unfoldable pub display_status : ServiceStatus → Text
unfolding display_pty display_bool display_signal_name
display_status stopped = codes "stopped"
display_status (running pid pty) = codes "running PID=" ++ (decimal pid ++ display_pty pty)
display_status (frozen pid pty) = codes "frozen PID=" ++ (decimal pid ++ display_pty pty)
display_status (stopping pid prune will_restart) =
    codes "stopping PID="
    ++ (decimal pid
        ++ (codes " (prune="
            ++ (display_bool prune
                ++ (codes ", will_restart=" ++ (display_bool will_restart ++ codes ")")))))
display_status (exited (exit_code zero)) = codes "exited normally"
display_status (exited (exit_code (suc c))) = codes "failed with exit status: " ++ decimal (suc c)
display_status (exited (exit_signal signal core_dumped)) =
    codes "failed with signal: "
    ++ (decimal signal
        ++ (display_signal_name (signal_name signal)
            ++ (if core_dumped then codes " (core dumped)" else [])))
display_status (error err) = codes "failed to start with " ++ err
