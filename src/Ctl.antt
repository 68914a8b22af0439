-- ===== src/Ctl.antt =====
-- beam-init/src/bin/beamctl.rs: the command line client. The parsing of the command line belongs
-- to clap, and the requests are those of a client that is an argument.
pub mod Parse
pub mod Select
pub mod Matching
pub mod Prefix
pub mod Labels
pub mod Run
pub mod Name
pub mod Commands
pub mod Main
pub mod Terminal
pub mod Attached
pub mod Examples
pub mod Selected
