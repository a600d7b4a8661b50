-- ===== src/Pdm.antt =====
-- apps/api/app/modules/pdm: the registry of the models and the query for predictions.
pub mod Sampling
pub mod Registry
