-- ===== src/Daemon.antt =====
-- src/daemon: the process that owns the log files, and what a run of the tool says to it.
pub mod Message
pub mod Lock
pub mod Serve
pub mod Client
pub mod Life
