-- ===== src/Server.antt =====
-- beam-init/src/api_impl.rs and the event loop of beam-init/src/main.rs.
pub mod Response
pub mod Command
pub mod Loop
pub mod Routes
pub mod Dispatch
pub mod Requests
pub mod Terminals
pub mod Bootstrap
pub mod Timers
pub mod Startup
pub mod Completion
pub mod Runs
pub mod Invariant
pub mod Events
pub mod Isolation
pub mod Privacy
pub mod Examples
