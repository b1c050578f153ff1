-- ===== src/Circuit.antt =====
-- The package circuit: a circuit breaker with a count-based or a time-based sliding window.
pub mod State
pub mod Window
pub mod Breaker
pub mod Ring
pub mod Sliding
pub mod Buckets
pub mod Counts
pub mod Expiry
pub mod Frame
pub mod Machine
pub mod System
pub mod Tripping
pub mod Probes
pub mod Refusal
pub mod Timeout
pub mod Signals
pub mod Recovery
