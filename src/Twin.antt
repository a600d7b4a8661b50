-- ===== src/Twin.antt =====
-- apps/api/app/modules/twin: commands to the machines.
pub mod Gateway
pub mod Actuation
