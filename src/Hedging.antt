-- ===== src/Hedging.antt =====
-- Speculative retries: executeHedged of retry.go.
pub mod Loop
pub mod Cases
pub mod Bounds
pub mod Ends
pub mod Attempt
pub mod Success
pub mod Race
pub mod Stored
pub mod Value
pub mod Answer
