-- ===== src/Model.antt =====
-- The data of the service: statuses, JSON values, table rows, transactions and tasks over them, and
-- what the running process is given.
pub mod Status
pub mod Json
pub mod Rows
pub mod Txn
pub mod Task
pub mod Deps
pub mod Keeps
pub mod Commit
pub mod Time
