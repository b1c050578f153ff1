-- ===== src/Pipeline.antt =====
-- The execution pipeline of retry.go, policy.go, options.go and chaos/injector.go: a configuration,
-- the middlewares that it builds up, their composition, and the entry points.
pub mod Config
pub mod World
pub mod Middleware
pub mod Guarded
pub mod Attempt
pub mod Compose
pub mod Options
pub mod Entry
pub mod Order
pub mod Choices
pub mod Nested
pub mod Policies
pub mod Budget
pub mod Frame
pub mod Framed
pub mod Chain
pub mod Calls
pub mod Ending
pub mod Success
pub mod Invariants
pub mod Flaky
pub mod Recovery
