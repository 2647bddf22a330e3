-- ===== src/Examples.antt =====
-- Concrete runs of the theorems.
pub mod Bindings
pub mod Serving
pub mod Killing
pub mod Wired
pub mod Requests
pub mod Jobs
pub mod Sandboxes
pub mod Tokens
pub mod Pods
pub mod Executions
