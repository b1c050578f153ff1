-- ===== src/Examples.antt =====
-- The programs of examples/ that carry logic of their own.
pub mod Resume
pub mod Connection
pub mod Connected
pub mod Events
pub mod Backpressure
pub mod Stalled
