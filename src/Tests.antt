-- ===== src/Tests.antt =====
-- The theorems at concrete inputs, per part of the repository.
pub mod Edge
pub mod Contracts
pub mod Twin
pub mod Ingest
pub mod Telemetry
pub mod Analytics
pub mod Simulator
pub mod Voice
pub mod Maintenance
pub mod Shifts
pub mod Nlu
pub mod Actuation
pub mod Assets
pub mod Pdm
