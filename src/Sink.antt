-- ===== src/Sink.antt =====
-- src/infrastructure/sink: what the log's events are written to.
pub mod Point
pub mod Influx
