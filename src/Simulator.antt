-- ===== src/Simulator.antt =====
-- apps/simulator: what the simulator sends.
pub mod EdgeNode
pub mod Clamp
pub mod Machine
pub mod Wear
pub mod Sensors
pub mod Shifts
pub mod Commands
