-- ===== src/Scheduler.antt =====
-- app/scheduler: business hours, the tick, the reclaim sweep and the webhook processor.
pub mod Hours
pub mod Config
pub mod Select
pub mod Dispatch
pub mod Tick
pub mod Reclaim
pub mod Loop
pub mod Webhook
pub mod Daemons
