-- ===== src/Api/Schemas.antt =====
-- app/api/schemas/campaigns.py: what a request to create a campaign must be.
pub mod Text
pub mod Phones
pub mod Zones
pub mod Body
