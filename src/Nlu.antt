-- ===== src/Nlu.antt =====
-- packages/nlu: what the router makes of a spoken sentence.
pub mod Words
pub mod Times
pub mod Fuzzy
