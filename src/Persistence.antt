-- ===== src/Persistence.antt =====
-- app/persistence/repositories.py, a module for each table.
pub mod Calls
pub mod Campaigns
pub mod Inbox
pub mod Cursors
pub mod Pages
