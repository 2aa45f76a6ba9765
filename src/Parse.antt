-- ===== src/Parse.antt =====
-- src/parse/parse.c: from the command line to the command tree.
pub mod Brackets
pub mod Operators
pub mod Redirect
pub mod Executable
pub mod Tree
pub mod Lifetime
