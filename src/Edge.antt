-- ===== src/Edge.antt =====
-- apps/edge: the runner that scores assets on the device.
pub mod Outbox
pub mod Runner
pub mod Window
