-- ===== src/Tests.antt =====
-- The theorems at concrete trees, commands and contexts.
mod Samples
mod Trees
mod Commands
mod Runs
mod Output
mod Completed
mod Parsed
mod Bookings
mod Children
mod Directories
mod Ending
mod Shell
