-- ===== src/Structs.antt =====
-- The data of the program: src/structs/stream.h, src/structs/node.h, and the functions of
-- src/structs/node.c that walk a command tree.
pub mod Stream
pub mod Node
pub mod Walk
pub mod Father
pub mod Siblings
pub mod Found
pub mod Clock
