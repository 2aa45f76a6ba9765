-- ===== src/Execute.antt =====
-- src/execute/execute.c: the process that runs a command tree and waits for its commands.
pub mod System
pub mod Child
pub mod Appender
pub mod Start
pub mod Manage
pub mod Counting
pub mod Waiting
pub mod Failed
pub mod Single
pub mod Flat
pub mod Verdict
pub mod Root
