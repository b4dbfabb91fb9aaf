-- ===== src/User.antt =====
-- The programs of user/, over the system calls as their library wraps them.
pub mod Calls
pub mod Cat
pub mod Shell
pub mod Ls
pub mod Small
pub mod Start
pub mod Syscall
mod Tests
