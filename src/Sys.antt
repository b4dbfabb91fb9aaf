-- ===== src/Sys.antt =====
-- The system calls: kernel/src/sys.rs, shared/src/sys.rs and user/userstd/src/sys.rs.
pub mod Code
pub mod User
pub mod Files
pub mod Procs
pub mod Load
pub mod Spawn
pub mod Handle
pub mod Queues
pub mod Answer
pub mod Break
mod Tests
