-- ===== src/Limits.antt =====
-- The limits on load: bulkhead.go, ratelimit.go and adaptive_concurrency.go.
pub mod Health
pub mod Bulkhead
pub mod Rate
pub mod Adaptive
pub mod Occupancy
pub mod Tokens
pub mod Burst
pub mod Floor
pub mod Crowd
pub mod Inside
pub mod Shares
