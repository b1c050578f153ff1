-- ===== src/Retry.antt =====
-- Retries: the policy of policy.go, the token bucket of adaptive_retry.go, backoff.go, and the
-- retry loop of retry.go.
pub mod Policy
pub mod Bucket
pub mod Backoff
pub mod Loop
pub mod Trace
pub mod Budget
pub mod History
pub mod Recovery
pub mod Success
pub mod Jitter
pub mod Pauses
pub mod Timing
