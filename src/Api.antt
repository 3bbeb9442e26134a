-- ===== src/Api.antt =====
-- The HTTP layer, app/api/: the schemas of requests and responses, the handlers
-- of routers/campaigns.py and routers/debug.py, the webhook ingest, and the
-- audit routes of routers/audit.py that answer from the audit log.
pub mod Schemas
pub mod Responses
pub mod Ingest
pub mod Debug
pub mod Campaigns
pub mod Routes
pub mod AuditLog
