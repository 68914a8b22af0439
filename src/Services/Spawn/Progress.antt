-- ===== src/Services/Spawn/Progress.antt =====
-- That the processes of `spawn_service` (Services/Spawn/Handshake) do not wait for each other in a
-- circle, and in which order they get through.
use beam_init.Base.{ℕ, ◌+◌, ◌≤◌, suc, ◌≡◌, refl, ◌⊎◌, inl, inr, arith}
use beam_init.Services.Spawn.Handshake.{
  Parent, reads_error, reads_pid, returned, Monitor, Process, Releases, ClosesError, HasClosed,
  HasWritten, State, state, Step, sets_group, drops_barrier, executes, reports, closes, writes_pid,
  passes, error_ends, error_read, pid_read, Ends, monitor_early, monitor_closed, monitor_waiting,
  monitor_watching, service_forked, service_grouped, service_released, service_executed, Reaches,
  here, step, end,
}

abbrev parent_left : Parent → ℕ
parent_left reads_error = 2
parent_left reads_pid = 1
parent_left returned = 0

abbrev monitor_left : Monitor → ℕ
monitor_left Monitor.forked = 4
monitor_left Monitor.closed = 3
monitor_left Monitor.wrote_pid = 2
monitor_left Monitor.watches = 1
monitor_left Monitor.ended_early = 0
monitor_left Monitor.ended = 0

abbrev process_left : Process → ℕ
process_left Process.forked = 4
process_left Process.grouped = 3
process_left Process.released = 2
process_left Process.executed = 1
process_left Process.reported = 0
process_left Process.ended = 0

-- How much is left to do.
abbrev left : State → ℕ
left (state p m s) = parent_left p + monitor_left m + process_left s

step-left : {t u : State} → Step t u → suc (left u) ≤ left t
step-left sets_group = omega arith
step-left drops_barrier = omega arith
step-left executes = omega arith
step-left reports = omega arith
step-left closes = omega arith
step-left writes_pid = omega arith
step-left (passes r) = omega arith
step-left (error_ends c e) = omega arith
step-left error_read = omega arith
step-left (pid_read w) = omega arith

end-left : {t u : State} → Ends t u → suc (left u) ≤ left t
end-left monitor_early = omega arith
end-left monitor_closed = omega arith
end-left monitor_waiting = omega arith
end-left monitor_watching = omega arith
end-left service_forked = omega arith
end-left service_grouped = omega arith
end-left service_released = omega arith
end-left service_executed = omega arith

Reaches-left : {n : ℕ} {t u : State} → Reaches n t u → n + left u ≤ left t
Reaches-left here = omega arith
Reaches-left (step r s) = omega (arith, Reaches-left r, step-left s)
Reaches-left (end r e) = omega (arith, Reaches-left r, end-left e)

-- While the monitor watches the service, beam-init has returned, and the process of the service has
-- its own group or has ended.
abbrev IsOrdered : State → Type 0
IsOrdered (state p m s) = m ≡ Monitor.watches → (p ≡ returned) × Releases s

step-IsOrdered : {t u : State} → Step t u → IsOrdered t → IsOrdered u
step-IsOrdered sets_group i = λ e. elim (i e).1 [ ]
step-IsOrdered drops_barrier i = λ e. elim (i e).1 [ ]
step-IsOrdered executes i = λ e. ((i e).0, Releases.executed)
step-IsOrdered reports i = λ e. ((i e).0, Releases.reported)
step-IsOrdered closes i = λ e. absurd cc
step-IsOrdered writes_pid i = λ e. absurd cc
step-IsOrdered (passes r) i = λ e. (refl, r)
step-IsOrdered (error_ends c q) i = λ e. absurd (cc (i e).0)
step-IsOrdered error_read i = λ e. (refl, Releases.reported)
step-IsOrdered (pid_read w) i = λ e. (refl, (i e).1)

end-IsOrdered : {t u : State} → Ends t u → IsOrdered t → IsOrdered u
end-IsOrdered monitor_early i = λ e. absurd cc
end-IsOrdered monitor_closed i = λ e. absurd cc
end-IsOrdered monitor_waiting i = λ e. absurd cc
end-IsOrdered monitor_watching i = λ e. absurd cc
end-IsOrdered service_forked i = λ e. ((i e).0, Releases.ended)
end-IsOrdered service_grouped i = λ e. ((i e).0, Releases.ended)
end-IsOrdered service_released i = λ e. ((i e).0, Releases.ended)
end-IsOrdered service_executed i = λ e. ((i e).0, Releases.ended)

Reaches-IsOrdered : {n : ℕ} {t u : State} → Reaches n t u → IsOrdered t → IsOrdered u
Reaches-IsOrdered here i = i
Reaches-IsOrdered (step r s) i = step-IsOrdered s (Reaches-IsOrdered r i)
Reaches-IsOrdered (end r e) i = end-IsOrdered e (Reaches-IsOrdered r i)

-- beam-init has returned, or waits for the id of a monitor that ended before it wrote it, or some
-- process can go on.
abbrev pub IsLive : State → Type 0
IsLive (state p m s) =
    (p ≡ returned)
    ⊎ (((p ≡ reads_pid) × (m ≡ Monitor.ended_early)) ⊎ ((u : State) × Step (state p m s) u))

reads_error-IsLive : (m : Monitor) (s : Process) → ClosesError s → IsLive (state reads_error m s)
reads_error-IsLive Monitor.forked s c = inr (inr (_, closes))
reads_error-IsLive Monitor.closed s c = inr (inr (_, error_ends HasClosed.closed c))
reads_error-IsLive Monitor.wrote_pid s c = inr (inr (_, error_ends HasClosed.wrote_pid c))
reads_error-IsLive Monitor.watches s c = inr (inr (_, error_ends HasClosed.watches c))
reads_error-IsLive Monitor.ended_early s c = inr (inr (_, error_ends HasClosed.ended_early c))
reads_error-IsLive Monitor.ended s c = inr (inr (_, error_ends HasClosed.ended c))

reads_pid-IsLive : (m : Monitor) (s : Process) → IsLive (state reads_pid m s)
reads_pid-IsLive Monitor.forked s = inr (inr (_, closes))
reads_pid-IsLive Monitor.closed s = inr (inr (_, writes_pid))
reads_pid-IsLive Monitor.wrote_pid s = inr (inr (_, pid_read HasWritten.wrote_pid))
reads_pid-IsLive Monitor.watches s = inr (inr (_, pid_read HasWritten.watches))
reads_pid-IsLive Monitor.ended_early s = inr (inl (refl, refl))
reads_pid-IsLive Monitor.ended s = inr (inr (_, pid_read HasWritten.ended))

each-IsLive : (p : Parent) (m : Monitor) (s : Process) → IsLive (state p m s)
each-IsLive returned m s = inl refl
each-IsLive reads_pid m s = reads_pid-IsLive m s
each-IsLive reads_error m Process.forked = inr (inr (_, sets_group))
each-IsLive reads_error m Process.grouped = inr (inr (_, drops_barrier))
each-IsLive reads_error m Process.released = inr (inr (_, executes))
each-IsLive reads_error m Process.executed =
    reads_error-IsLive m Process.executed ClosesError.executed
each-IsLive reads_error m Process.reported = inr (inr (_, error_read))
each-IsLive reads_error m Process.ended = reads_error-IsLive m Process.ended ClosesError.ended

-- However the processes take turns after the second fork, and wherever the monitor and the process
-- of the service end: there are at most 10 steps. While beam-init has not returned some process can
-- go on, unless beam-init waits for the id of a monitor that ended before it wrote it. The monitor
-- watches the service, and sends it signals, only once the process of the service leads its own
-- group or has ended, and beam-init has returned.
pub Reaches-IsLive :
    (n : ℕ) (p : Parent) (m : Monitor) (s : Process)
    → Reaches n (state reads_error Monitor.forked Process.forked) (state p m s)
    → (n ≤ 10) × IsLive (state p m s) × (m ≡ Monitor.watches → (p ≡ returned) × Releases s)
Reaches-IsLive n p m s r =
    (omega (arith, Reaches-left r), each-IsLive p m s, Reaches-IsOrdered r (λ e. absurd cc))
