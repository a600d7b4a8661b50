-- ===== src/Telemetry.antt =====
-- apps/api/app/modules/telemetry: alarms and what operators do with them.
pub mod Alarms
