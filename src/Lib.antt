-- ===== src/Lib.antt =====
-- beam-init: an init process for containers that runs services and is driven over an HTTP API.
--
-- The program. `beam-init/src/main.rs` runs an event loop over a `ServiceManager`
-- (`beam-init/src/services.rs`). The events are commands of the API (`beam-init/src/api_impl.rs`),
-- signals, requests for a terminal, failed liveness probes and clients that wait for a status. A
-- service has its configuration, a status, its log (`beam-init/src/logs.rs`), at most one liveness
-- task, and a publisher that tells subscribers of each new status. It is started by `spawn_service`
-- (`beam-init/src/spawn.rs`) with an environment that is built from the user's entry, files and the
-- request (`beam-init/src/environment.rs`); a service with a terminal has a monitor process between
-- it and beam-init. The types that are exchanged with clients are those of
-- `beam-init-api/src/lib.rs`. The client library `beam-init-client/src/blocking.rs` sends requests
-- to the routes of api_impl.rs, and the command line client `beam-init/src/bin/beamctl.rs` calls
-- it. A terminal is fetched over a socket of its own (`beam-init/src/ptystore.rs`) and then driven
-- by `beam-init/src/bin/terminal/mod.rs`.
--
-- The files.
--   Base: shared names and lemmas. `Base.Text` models strings as their bytes, `Base.Map` the
--     `BTreeMap`s whose keys are strings, as lists in the order of the keys.
--   Api (beam-init-api/src/lib.rs): `ServiceStatus`, `ServiceStatusKind` with `Display` and
--     `FromStr` (Api/Kind), `signal_name` (Api/SignalName), derived equality (Api/Equality).
--   Logs (beam-init/src/logs.rs): `RingBuffer` with `push` and `get`, the loop of `new_reader` as
--     `drain`, `sanitize` (Logs/Sanitize), the task of `new_writer` (Logs/Writer), what a buffer
--     keeps (Logs/Retention) and what a reader sees (Logs/Reader).
--   Services (beam-init/src/services.rs): Types has the data, Service the methods of `Service`,
--     `AfterStop`, `ServiceProcess` and the publisher, Spawn the parent's side of `spawn_service`,
--     Manager creating, finding and starting, Lifecycle `freeze_service`, `thaw_service`,
--     `terminate_service` and `force_kill_service`, Reap `handle_signal` and the shutdown, Query
--     the other methods (`send_signal` is `signal_service`). Liveness is `run_liveness_probe`,
--     Wait the loop of `wait_service` of api_impl.rs over a subscription, Monitor the bytes of a
--     `MonitorCommand`, and Services/Monitor/Process the loop of the monitor process of spawn.rs.
--     Services/AfterStop is about the merging of requests, Services/Freezing about freezing and
--     thawing, Services/Spawn/Entries about the environment of a new process. Services/Spawn/Child
--     has the forked children of `spawn_service` with `set_creds` of api_impl.rs and `make_tty` of
--     beam-init/src/system/pty.rs; Calls, Preparation, Privileges and Started beside it are about
--     them. Services/Spawn/Handshake is how the processes wait for each other over their pipes and
--     the barrier of beam-init/src/system/ipc_barrier.rs, as a relation between states, and
--     Services/Spawn/Progress is about it. Services/Growth is about kill timers and monitor
--     commands. Services/Invariant
--     and its children have the invariant of the manager and its preservation by each operation.
--   Environment (beam-init/src/environment.rs): `build_environment`, and `env_line` with the
--     methods of `str` that it calls (Environment/Line). Environment/Keys is about lines,
--     Environment/Sources about which source a variable comes from, and Environment/UserLookup is
--     the loop of `get_user_info`.
--   Client (beam-init-client/src/blocking.rs, error.rs): the request of each method, and the
--     errors.
--   Server: `handle_api_command` (Server/Command), the error responses (Server/Response), the
--     event loop (Server/Loop) and lemmas about them (Server/Invariant, Server/Events,
--     Server/Isolation, Server/Privacy, Server/Completion, Server/Bootstrap and
--     Server/Bootstrap/Children). Server/Routes has the table of `bind_api_socket` and the
--     handlers; Server/Dispatch and Server/Requests are about which request reaches which handler.
--     Server/Terminals is `handle_connection` of ptystore.rs with
--     the client at its other end, and Server/Terminals/Descriptor the same down to the messages of
--     System/Socket (beam-init/src/system/unix_socket.rs). Server/Timers is about kill timers and
--     monitor commands over whole runs. Server/Startup is `main` with the options of
--     beam-init/src/cli.rs, and Server/Startup/Ending how it ends with the bootstrap service.
--   Ctl (beam-init/src/bin/beamctl.rs): the parsers of values (Ctl/Parse), the choice of services
--     (Ctl/Select), the interface of the client and the session (Ctl/Run), attaching and the loops
--     over services (Ctl/Commands), `main` (Ctl/Main), `gen_name` with `getrandom` of
--     beam-init/src/system/mod.rs (Ctl/Name), and `manage` of terminal/mod.rs (Ctl/Terminal).
--     Ctl/Labels, Ctl/Matching, Ctl/Prefix, Ctl/Selected and Ctl/Attached are about them.
--   Each part has a module Examples with runs at concrete inputs; Server/Runs has more of them.
--
-- State and effects. An operation takes the manager and returns its result beside the manager
-- afterwards. A result is `ok`, an error, or `panic`, which stands for `panic!`, `expect`,
-- `unreachable!` and an index out of range. What the code asks of the operating system or of tokio
-- is added to a list of effects; an identity (of a task, or of an `Arc`) is a number that is not
-- used again. Calls that return something are parameters: the record `Os` of Services/Spawn and the
-- record `Host` of Server/Command, with one answer per numbered call. A forked child is the list of
-- the calls that it made, and `Sys` of Services/Spawn/Child says which of them fail.
--
-- beamctl is run over the record `Client` of Ctl/Run, whose operations take and return the state of
-- the server; `exited` is `process::exit(1)`.
--
-- What is relied on. That the calls that the manager makes return (`report` of Services/Spawn/Child
-- is about the reads of `spawn_service`, which may not), that the pipe of a log can be made
-- (`new_writer` is followed by an `expect`), and that duplicating a terminal's descriptor fails
-- only for too many open files; these are the hypotheses `HasLogPipes` and `IsReliable`. Sending a
-- signal to a process group or a command to a monitor succeeds, as the `expect`s there say. The
-- matching of a path against a pattern and the splitting of queries belong to axum: they are the
-- record `Http` of Server/Routes, and `IsHttp` of Server/Dispatch states what is used of them, for
-- names of letters, digits, `_` and `-`. A server is taken to show the services that it lists and
-- to keep them while others are acted on (`IsServer` of Ctl/Selected). `Fills` of Ctl/Name says
-- that the kernel gives the bytes that it is asked for, and `IsConnected` of
-- Server/Terminals/Descriptor that a message arrives at the other socket.
--
-- Bounds and fuel. Numbers are unbounded but for `automatic_restart_attempts`, which saturates at
-- 32 bits, and the bytes of a monitor command. The 64-bit index of a log buffer does not wrap
-- within any run that can happen, and is unbounded here. `drain` has fuel, and the result about it
-- asks for two calls more than there are lines; `evict` has as much fuel as there are entries, each
-- of its rounds removing one. `get_user_info` has fuel for 64 rounds: each doubles a length that
-- has at least one byte, and a buffer of 2^63 bytes or more cannot be allocated, which is a panic.
-- Durations read from the command line are at most 64 bits, and a name on the terminal socket 255
-- bytes.
--
-- Not modelled: the parsing of the command lines and the completions (clap), JSON (serde), sending
-- requests (reqwest), accepting connections, reading signals, the modes of a terminal and the
-- copying between terminals, the other wrappers of system calls, and the tests.
pub mod Base
pub mod Api
pub mod Logs
pub mod Services
pub mod Environment
pub mod Client
pub mod Server
pub mod System
pub mod Ctl
