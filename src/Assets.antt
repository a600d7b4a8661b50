-- ===== src/Assets.antt =====
-- apps/api/app/modules/assets: the registry of the assets.
pub mod Tables
pub mod Sync
pub mod Structure
pub mod Service
pub mod Rows
pub mod Codes
pub mod InStep
