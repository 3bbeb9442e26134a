-- ===== src/Tests.antt =====
-- Tests of the model on small databases, and the properties at concrete inputs.
pub mod Samples
pub mod Lifecycle
pub mod Moves
pub mod Scheduling
pub mod Api
pub mod Requests
pub mod AuditLog
pub mod Provider
pub mod Pages
pub mod Runs
