-- ===== src/Bf.antt =====
-- user/bf: a compiler of a small language to byte code, and the machine that runs it.
pub mod Code
pub mod Compile
pub mod Tree
pub mod Machine
mod Tests
