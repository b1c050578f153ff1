-- ===== src/Telemetry.antt =====
-- The instrumenters of telemetry/: resileotel/otel.go and resileslog/slog.go.
pub mod Attribute
pub mod Otel
pub mod Slog
pub mod Counts
pub mod Logs
