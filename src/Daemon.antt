-- ===== src/Daemon.antt =====
-- internal/daemon: the HTTP daemon.
pub mod Jobs
pub mod Request
pub mod Run
pub mod Http
pub mod Startup
pub mod Launchd
