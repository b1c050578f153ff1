-- ===== src/Limits/Health.antt =====
-- statevent.go: what the adaptive limiter tells of its capacity.
use resile.Prelude.{ℕ, String}

pub data HealthState : Type 0 where
  healthy degraded unhealthy : HealthState

pub record StateEvent : Type 0 where
  pub component : String
  pub state : HealthState
  pub timestamp : ℕ
  pub message : String
