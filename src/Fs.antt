-- ===== src/Fs.antt =====
-- kernel/src/fs: paths, file systems and open files.
pub mod Path
pub mod Result
pub mod InitRd
pub mod Fd
pub mod Vfs
pub mod Devices
