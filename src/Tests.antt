-- ===== src/Tests.antt =====
-- Concrete runs of the components, on fixed-point numbers in the place of float64.
mod CircuitRuns
mod RetryRuns
mod LimitRuns
mod PipelineRuns
mod StateMachineRuns
mod PropagationRuns
mod HedgingRuns
mod TelemetryRuns
mod ExampleRuns
