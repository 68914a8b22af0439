-- ===== src/Services/Spawn/Handshake.antt =====
-- How the processes of `spawn_service` (beam-init/src/spawn.rs) wait for each other over their
-- pipes, for a service with a terminal: beam-init, the monitor and the process of the service. A
-- pipe ends once every process that has its writing end has closed it, or has ended.
use beam_init.Base.{ℕ, suc}

-- beam-init reads the error pipe, then the pipe of the process id, and then returns, which closes
-- the ends of the pipes that it still has.
pub data Parent : Type 0 where
  reads_error reads_pid returned : Parent

-- The monitor closes its ends of the error pipe and of the barrier, writes the process id, waits for
-- the barrier and watches the service. It may end before it wrote the process id, or later.
pub data Monitor : Type 0 where
  forked closed wrote_pid watches ended_early ended : Monitor

-- The process of the service becomes the leader of its own group, closes its end of the barrier, and
-- executes the program, or writes the error number; it may end at any time.
pub data Process : Type 0 where
  forked grouped released executed reported ended : Process

-- The process of the service no longer has the barrier.
pub data Releases : Process → Type 0 where
  released : Releases Process.released
  executed : Releases Process.executed
  reported : Releases Process.reported
  ended : Releases Process.ended

-- The process of the service no longer has the error pipe, and wrote nothing to it.
pub data ClosesError : Process → Type 0 where
  executed : ClosesError Process.executed
  ended : ClosesError Process.ended

-- The monitor no longer has the error pipe.
pub data HasClosed : Monitor → Type 0 where
  closed : HasClosed Monitor.closed
  wrote_pid : HasClosed Monitor.wrote_pid
  watches : HasClosed Monitor.watches
  ended_early : HasClosed Monitor.ended_early
  ended : HasClosed Monitor.ended

-- The process id was written.
pub data HasWritten : Monitor → Type 0 where
  wrote_pid : HasWritten Monitor.wrote_pid
  watches : HasWritten Monitor.watches
  ended : HasWritten Monitor.ended

pub data State : Type 0 where
  state : Parent → Monitor → Process → State

-- What the processes do.
pub data Step : State → State → Type 0 where
  sets_group : {p : Parent} {m : Monitor} → Step (state p m Process.forked) (state p m grouped)
  drops_barrier : {p : Parent} {m : Monitor} → Step (state p m grouped) (state p m Process.released)
  executes :
      {p : Parent} {m : Monitor} → Step (state p m Process.released) (state p m Process.executed)
  reports :
      {p : Parent} {m : Monitor} → Step (state p m Process.released) (state p m Process.reported)
  closes : {p : Parent} {s : Process} → Step (state p Monitor.forked s) (state p Monitor.closed s)
  writes_pid :
      {p : Parent} {s : Process} → Step (state p Monitor.closed s) (state p Monitor.wrote_pid s)
  passes :
      {s : Process}
      → Releases s
      → Step (state returned Monitor.wrote_pid s) (state returned Monitor.watches s)
  error_ends :
      {m : Monitor} {s : Process}
      → HasClosed m
      → ClosesError s
      → Step (state reads_error m s) (state reads_pid m s)
  error_read :
      {m : Monitor}
      → Step (state reads_error m Process.reported) (state returned m Process.reported)
  pid_read :
      {m : Monitor} {s : Process} → HasWritten m → Step (state reads_pid m s) (state returned m s)

-- The end of a process, by a failed call or from outside.
pub data Ends : State → State → Type 0 where
  monitor_early :
      {p : Parent} {s : Process} → Ends (state p Monitor.forked s) (state p Monitor.ended_early s)
  monitor_closed :
      {p : Parent} {s : Process} → Ends (state p Monitor.closed s) (state p Monitor.ended_early s)
  monitor_waiting :
      {p : Parent} {s : Process} → Ends (state p Monitor.wrote_pid s) (state p Monitor.ended s)
  monitor_watching :
      {p : Parent} {s : Process} → Ends (state p Monitor.watches s) (state p Monitor.ended s)
  service_forked :
      {p : Parent} {m : Monitor} → Ends (state p m Process.forked) (state p m Process.ended)
  service_grouped : {p : Parent} {m : Monitor} → Ends (state p m grouped) (state p m Process.ended)
  service_released :
      {p : Parent} {m : Monitor} → Ends (state p m Process.released) (state p m Process.ended)
  service_executed :
      {p : Parent} {m : Monitor} → Ends (state p m Process.executed) (state p m Process.ended)

-- Any number of steps and ends of processes.
pub data Reaches : (steps : ℕ) → State → State → Type 0 where
  here : {t : State} → Reaches 0 t t
  step : {n : ℕ} {t u v : State} → Reaches n t u → Step u v → Reaches (suc n) t v
  end : {n : ℕ} {t u v : State} → Reaches n t u → Ends u v → Reaches (suc n) t v
