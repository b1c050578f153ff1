-- ===== src/Pipeline/Choices.antt =====
-- The options of options.go as data, and the middlewares that each stands for.
use resile.Circuit.State.{Breaker}
use resile.Context.{Context, Priority}
use resile.Errors.{Sentinel, Err}
use resile.Float.{Float}
use resile.Limits.Adaptive.{AdaptiveLimiter}
use resile.Limits.Bulkhead.{Bulkhead, PriorityBulkhead}
use resile.Limits.Rate.{RateLimiter}
use resile.Pipeline.Config.{Chaos, Middleware, Config}
use resile.Pipeline.Options
use resile.Pipeline.Options.{push, configure, new_policy, with_adaptive_limiter}
use resile.Retry.Backoff.{Backoff}
use resile.Retry.Bucket.{AdaptiveBucket}
use resile.Retry.Loop.{RetryState}
use resile.Prelude.{ℕ, ℤ, Bool, Option, List, [], ◌∷◌, ◌++◌, String}

-- An option with its arguments.
pub data Choice (F V : Type 0) : Type 0 where
  fallback : (Context → Err → V × Option Err) → Choice F V
  fallback_err : (Context → Err → Option Err) → Choice F V
  name : String → Choice F V
  max_attempts retry : ℕ → Choice F V
  base_delay max_delay timeout hedging_delay min_deadline_threshold : ℤ → Choice F V
  backoff : Backoff → Choice F V
  retry_if : Option Sentinel → Choice F V
  retry_if_func : Option (Err → Bool) → Choice F V
  instrumenter : Option (Context → RetryState → Context) → Choice F V
  circuit_breaker : Option (Breaker F) → Choice F V
  bulkhead : ℕ → Choice F V
  bulkhead_instance : Option Bulkhead → Choice F V
  priority_bulkhead : ℕ → List (Priority × F) → Choice F V
  priority_bulkhead_instance : Option (PriorityBulkhead F) → Choice F V
  rate_limiter : ℕ → F → ℤ → Choice F V
  rate_limiter_instance : Option (RateLimiter F) → Choice F V
  adaptive_limiter : ℕ → Choice F V
  adaptive_limiter_instance : Option (AdaptiveLimiter F) → Choice F V
  adaptive_bucket : Option (AdaptiveBucket F) → Choice F V
  panic_recovery : Choice F V
  chaos : Chaos F → Choice F V

module _ {F V : Type 0} where
  -- The middlewares that an option stands for.
  abbrev pub adds : Choice F V → List Middleware
  adds (fallback g) = Middleware.fallback ∷ []
  adds (fallback_err g) = Middleware.fallback ∷ []
  adds (name s) = []
  adds (max_attempts n) = Middleware.retry ∷ []
  adds (retry n) = Middleware.retry ∷ []
  adds (base_delay d) = []
  adds (max_delay d) = []
  adds (timeout d) = Middleware.timeout d ∷ []
  adds (hedging_delay d) = []
  adds (min_deadline_threshold d) = Middleware.deadline ∷ []
  adds (backoff b) = []
  adds (retry_if t) = []
  adds (retry_if_func g) = []
  adds (instrumenter i) = Middleware.instrumenter ∷ []
  adds (circuit_breaker b) = Middleware.circuit_breaker ∷ []
  adds (bulkhead n) = Middleware.bulkhead ∷ []
  adds (bulkhead_instance b) = Middleware.bulkhead ∷ []
  adds (priority_bulkhead n ts) = Middleware.priority_bulkhead ∷ []
  adds (priority_bulkhead_instance b) = Middleware.priority_bulkhead ∷ []
  adds (rate_limiter now l i) = Middleware.rate_limiter ∷ []
  adds (rate_limiter_instance l) = Middleware.rate_limiter ∷ []
  adds (adaptive_limiter now) = Middleware.adaptive_limiter ∷ []
  adds (adaptive_limiter_instance l) = Middleware.adaptive_limiter ∷ []
  adds (adaptive_bucket b) = []
  adds panic_recovery = Middleware.panic_recovery ∷ []
  adds (chaos c) = Middleware.chaos ∷ []

  abbrev pub all_added : List (Choice F V) → List Middleware
  all_added [] = []
  all_added (x ∷ xs) = adds x ++ all_added xs

module _ {F V : Type 0} ⦃f : Float F⦄ where
  abbrev pub option_of : Choice F V → Config F V → Config F V
  option_of (fallback g) = Options.with_fallback g
  option_of (fallback_err g) = Options.with_fallback_err g
  option_of (name s) = Options.with_name s
  option_of (max_attempts n) = Options.with_max_attempts n
  option_of (retry n) = Options.with_retry n
  option_of (base_delay d) = Options.with_base_delay d
  option_of (max_delay d) = Options.with_max_delay d
  option_of (timeout d) = Options.with_timeout d
  option_of (hedging_delay d) = Options.with_hedging_delay d
  option_of (min_deadline_threshold d) = Options.with_min_deadline_threshold d
  option_of (backoff b) = Options.with_backoff b
  option_of (retry_if t) = Options.with_retry_if t
  option_of (retry_if_func g) = Options.with_retry_if_func g
  option_of (instrumenter i) = Options.with_instrumenter i
  option_of (circuit_breaker b) = Options.with_circuit_breaker b
  option_of (bulkhead n) = Options.with_bulkhead n
  option_of (bulkhead_instance b) = Options.with_bulkhead_instance b
  option_of (priority_bulkhead n ts) = Options.with_priority_bulkhead n ts
  option_of (priority_bulkhead_instance b) = Options.with_priority_bulkhead_instance b
  option_of (rate_limiter now l i) = Options.with_rate_limiter now l i
  option_of (rate_limiter_instance l) = Options.with_rate_limiter_instance l
  option_of (adaptive_limiter now) = with_adaptive_limiter now
  option_of (adaptive_limiter_instance l) = Options.with_adaptive_limiter_instance l
  option_of (adaptive_bucket b) = Options.with_adaptive_bucket b
  option_of panic_recovery = Options.with_panic_recovery
  option_of (chaos c) = Options.with_chaos c

  abbrev pub options_of : List (Choice F V) → List (Config F V → Config F V)
  options_of [] = []
  options_of (x ∷ xs) = option_of x ∷ options_of xs
