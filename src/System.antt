-- ===== src/System.antt =====
-- beam-init/src/system/: wrappers of system calls, over what the calls return.
pub mod Socket
