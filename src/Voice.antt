-- ===== src/Voice.antt =====
-- apps/api/app/modules/voice: the commands that are read back before they run.
pub mod Validation
pub mod Actions
