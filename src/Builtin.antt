-- ===== src/Builtin.antt =====
-- src/parse/builtin.c: the two passes over a parsed tree that `apply_builtin` makes.
pub mod Cd
pub mod Wire
