-- ===== src/System.antt =====
-- What holds of the running system: every task is built from a few operations on the database, so
-- a relation that these keep is kept by the tick, the webhook processor and the reclaim sweep.
pub mod Primitives
pub mod Events
pub mod Rows
pub mod Tasks
pub mod Runs
pub mod Lifecycle
pub mod Log
pub mod Phones
pub mod Cap
pub mod Backlog
