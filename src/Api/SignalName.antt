-- ===== src/Api/SignalName.antt =====
-- `signal_name` of beam-init-api/src/lib.rs, over the signal numbers of Linux on x86 and ARM.
use beam_init.Base.{ℕ, Option, none, some, List, [], ◌∷◌, get_elem?}
use beam_init.Base.Text.{Text, codes}

-- The names of the signals 0 to 31, in the order of their numbers; there is no signal 0.
abbrev names : List (Option Text)
names =
    none
    ∷ some (codes "SIGHUP")
    ∷ some (codes "SIGINT")
    ∷ some (codes "SIGQUIT")
    ∷ some (codes "SIGILL")
    ∷ some (codes "SIGTRAP")
    ∷ some (codes "SIGABRT")
    ∷ some (codes "SIGBUS")
    ∷ some (codes "SIGFPE")
    ∷ some (codes "SIGKILL")
    ∷ some (codes "SIGUSR1")
    ∷ some (codes "SIGSEGV")
    ∷ some (codes "SIGUSR2")
    ∷ some (codes "SIGPIPE")
    ∷ some (codes "SIGALRM")
    ∷ some (codes "SIGTERM")
    ∷ some (codes "SIGSTKFLT")
    ∷ some (codes "SIGCHLD")
    ∷ some (codes "SIGCONT")
    ∷ some (codes "SIGSTOP")
    ∷ some (codes "SIGTSTP")
    ∷ some (codes "SIGTTIN")
    ∷ some (codes "SIGTTOU")
    ∷ some (codes "SIGURG")
    ∷ some (codes "SIGXCPU")
    ∷ some (codes "SIGXFSZ")
    ∷ some (codes "SIGVTALRM")
    ∷ some (codes "SIGPROF")
    ∷ some (codes "SIGWINCH")
    ∷ some (codes "SIGIO")
    ∷ some (codes "SIGPWR")
    ∷ some (codes "SIGSYS")
    ∷ []

named : Option (Option Text) → Option Text
named none = none
named (some name) = name

unfoldable pub signal_name : ℕ → Option Text
unfolding named
signal_name signal = named (get_elem? names signal)
