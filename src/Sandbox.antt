-- ===== src/Sandbox.antt =====
-- The package sandbox.
pub mod Mounts
pub mod Config
pub mod ToolPaths
pub mod Environ
pub mod Bwrap
pub mod Cgroup
pub mod Status
pub mod Seatbelt
pub mod Execution
