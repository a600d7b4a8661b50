-- ===== src/Maintenance.antt =====
-- apps/api/app/modules/maintenance: work orders and the checks on their schedule.
pub mod Availability
pub mod Conflicts
pub mod Schedule
pub mod Solver
pub mod WorkOrders
