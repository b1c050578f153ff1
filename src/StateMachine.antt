-- ===== src/StateMachine.antt =====
-- statemachine.go: a state machine whose transitions run within the pipeline of retry.go.
pub mod Handle
pub mod Atomic
