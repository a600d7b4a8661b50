-- ===== src/Ingest.antt =====
-- apps/api/app/ingest: the consumer that turns MQTT messages into rows, alarms and live updates.
pub mod EdgePredictions
pub mod AlarmEngine
pub mod Counters
pub mod Consumer
