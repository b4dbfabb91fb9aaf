-- ===== src/Dev.antt =====
-- kernel/src/dev: the devices.
pub mod Console
