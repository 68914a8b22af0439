-- ===== src/Services.antt =====
-- beam-init/src/services.rs: the service manager, with the parts of beam-init/src/spawn.rs and
-- api_impl.rs that it works with.
pub mod Types
pub mod Outcome
pub mod Service
pub mod Spawn
pub mod Manager
pub mod Lifecycle
pub mod Reap
pub mod Query
pub mod Invariant
pub mod AfterStop
pub mod Liveness
pub mod Wait
pub mod Freezing
pub mod Growth
pub mod Monitor
pub mod Examples
