-- ===== src/State.antt =====
-- app/state: the one function that changes a call's status, the campaign rollup, and retries.
pub mod Rollup
pub mod Machine
pub mod Classify
pub mod Retry
pub mod Lifecycle
