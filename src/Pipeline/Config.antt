-- ===== src/Pipeline/Config.antt =====
-- The configuration of retry.go, with the shared components that it points to, and chaos.Config.
-- A pointer that may be nil is an option; no two pointers of one configuration are the same.
use resile.Circuit.State.{Breaker}
use resile.Context.{Context}
use resile.Errors.{Err}
use resile.Limits.Adaptive.{AdaptiveLimiter}
use resile.Limits.Bulkhead.{Bulkhead, PriorityBulkhead}
use resile.Limits.Rate.{RateLimiter}
use resile.Retry.Backoff.{Backoff, full_jitter}
use resile.Retry.Bucket.{AdaptiveBucket}
use resile.Retry.Loop.{RetryState}
use resile.Retry.Policy.{RetryPolicy, no_policy}
use resile.Prelude.{ℕ, ◌*◌, ℤ, pos, Bool, false, Option, none, List, String}

abbrev pub millisecond : ℕ
millisecond = 1000000

pub record Chaos (F : Type 0) : Type 0 where
  pub error_probability : F
  pub injected_error : Option Err
  pub latency_probability : F
  pub latency_duration : ℤ

-- The field `Fallback any`: a function into errors, or one into values of the action's type.
pub data Fallback (V : Type 0) : Type 0 where
  err_fallback : (Context → Err → Option Err) → Fallback V
  value_fallback : (Context → Err → V × Option Err) → Fallback V

-- The middlewares, which are closures over the configuration.
pub data Middleware : Type 0 where
  rate_limiter adaptive_limiter bulkhead priority_bulkhead retry deadline : Middleware
  timeout : ℤ → Middleware
  circuit_breaker instrumenter panic_recovery chaos fallback : Middleware

-- `pipeline` is `none` while the slice is nil; `composed` is what composedPipeline was built from.
-- `instrumenter` is its method BeforeAttempt on contexts.
pub record Config (F V : Type 0) : Type 0 where
  pub name : String
  pub max_attempts : ℕ
  pub base_delay : ℤ
  pub max_delay : ℤ
  pub hedging_delay : ℤ
  pub backoff : Backoff
  pub policy : RetryPolicy
  pub instrumenter : Option (Context → RetryState → Context)
  pub circuit_breaker : Option (Breaker F)
  pub fallback : Option (Fallback V)
  pub adaptive_bucket : Option (AdaptiveBucket F)
  pub recover_panics : Bool
  pub bulkhead : Option Bulkhead
  pub priority_bulkhead : Option (PriorityBulkhead F)
  pub timeout : ℤ
  pub rate_limiter : Option (RateLimiter F)
  pub adaptive_limiter : Option (AdaptiveLimiter F)
  pub chaos : Option (Chaos F)
  pub min_deadline_threshold : ℤ
  pub pipeline : Option (List Middleware)
  pub composed : Option (List Middleware)

unfoldable pub default_config : {F V : Type 0} → Config F V
default_config = record {
  name = "";
  max_attempts = 5;
  base_delay = pos (100 * millisecond);
  max_delay = pos (30000 * millisecond);
  hedging_delay = pos 0;
  backoff = full_jitter (pos (100 * millisecond)) (pos (30000 * millisecond));
  policy = no_policy;
  instrumenter = none;
  circuit_breaker = none;
  fallback = none;
  adaptive_bucket = none;
  recover_panics = false;
  bulkhead = none;
  priority_bulkhead = none;
  timeout = pos 0;
  rate_limiter = none;
  adaptive_limiter = none;
  chaos = none;
  min_deadline_threshold = pos (5 * millisecond);
  pipeline = none;
  composed = none;
}
