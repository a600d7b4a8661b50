-- ===== src/Contracts.antt =====
-- packages/contracts/src/twinvoice_contracts/sparkplug: the Sparkplug B messages.
pub mod Wire
pub mod Payload
pub mod Topic
