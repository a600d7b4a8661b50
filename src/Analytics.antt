-- ===== src/Analytics.antt =====
-- apps/api/app/modules/analytics: what is computed from the asset's events.
pub mod Oee
