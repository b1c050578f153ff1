-- ===== src/Pipeline/Options.antt =====
-- options.go, and New and NewPolicy: an option changes the configuration, and adds its middleware
-- where a policy is built, whose pipeline is not nil.
use resile.Circuit.State.{Breaker}
use resile.Context.{Context, Priority}
use resile.Errors.{Sentinel, Err}
use resile.Float.{Float}
use resile.Limits.Adaptive.{AdaptiveLimiter, new_adaptive_limiter}
use resile.Limits.Bulkhead.{Bulkhead, new_bulkhead, PriorityBulkhead, new_priority_bulkhead}
use resile.Limits.Rate.{RateLimiter, new_rate_limiter}
use resile.Pipeline.Config.{Chaos, err_fallback, value_fallback, Middleware, Config, default_config}
use resile.Retry.Backoff.{Backoff, full_jitter, custom}
use resile.Retry.Bucket.{AdaptiveBucket}
use resile.Retry.Loop.{RetryState}
use resile.Prelude.{ℕ, ℤ, Bool, true, Option, none, some, List, [], ◌∷◌, ◌++◌, String}

abbrev pub set_base : ℤ → Backoff → Backoff
set_base d (full_jitter base cap_) = full_jitter d cap_
set_base d (custom next) = custom next

abbrev pub set_cap : ℤ → Backoff → Backoff
set_cap d (full_jitter base cap_) = full_jitter base d
set_cap d (custom next) = custom next

module _ {F V : Type 0} where
  -- The append to the pipeline, if that is not nil.
  abbrev pub push : Middleware → Config F V → Config F V
  push m c = elim c.pipeline [ none ↦ c | some ms ↦ record c { pipeline = some (ms ++ m ∷ []) } ]

  unfoldable pub with_fallback : (Context → Err → V × Option Err) → Config F V → Config F V
  with_fallback g c = push Middleware.fallback (record c { fallback = some (value_fallback g) })

  unfoldable pub with_fallback_err : (Context → Err → Option Err) → Config F V → Config F V
  with_fallback_err g c = push Middleware.fallback (record c { fallback = some (err_fallback g) })

  unfoldable pub with_name : String → Config F V → Config F V
  with_name name c = record c { name = name }

  unfoldable pub with_max_attempts : ℕ → Config F V → Config F V
  with_max_attempts n c = push Middleware.retry (record c { max_attempts = n })

  unfoldable pub with_retry : ℕ → Config F V → Config F V
  with_retry n c = push Middleware.retry (record c { max_attempts = n })

  unfoldable pub with_base_delay : ℤ → Config F V → Config F V
  with_base_delay d c = record c { base_delay = d; backoff = set_base d c.backoff }

  unfoldable pub with_max_delay : ℤ → Config F V → Config F V
  with_max_delay d c = record c { max_delay = d; backoff = set_cap d c.backoff }

  unfoldable pub with_backoff : Backoff → Config F V → Config F V
  with_backoff b c = record c { backoff = b }

  unfoldable pub with_retry_if : Option Sentinel → Config F V → Config F V
  with_retry_if target c = record c { policy = record (c.policy) { retry_if = target } }

  unfoldable pub with_retry_if_func : Option (Err → Bool) → Config F V → Config F V
  with_retry_if_func g c = record c { policy = record (c.policy) { retry_if_func = g } }

  unfoldable pub with_instrumenter :
      Option (Context → RetryState → Context) → Config F V → Config F V
  with_instrumenter i c = push Middleware.instrumenter (record c { instrumenter = i })

  unfoldable pub with_circuit_breaker : Option (Breaker F) → Config F V → Config F V
  with_circuit_breaker b c = push Middleware.circuit_breaker (record c { circuit_breaker = b })

  unfoldable pub with_bulkhead : ℕ → Config F V → Config F V
  unfolding new_bulkhead
  with_bulkhead n c = push Middleware.bulkhead (record c { bulkhead = some (new_bulkhead n) })

  unfoldable pub with_bulkhead_instance : Option Bulkhead → Config F V → Config F V
  with_bulkhead_instance b c = push Middleware.bulkhead (record c { bulkhead = b })

  unfoldable pub with_priority_bulkhead : ℕ → List (Priority × F) → Config F V → Config F V
  unfolding new_priority_bulkhead
  with_priority_bulkhead n ts c =
      push Middleware.priority_bulkhead
        (record c { priority_bulkhead = some (new_priority_bulkhead n ts) })

  unfoldable pub with_priority_bulkhead_instance :
      Option (PriorityBulkhead F) → Config F V → Config F V
  with_priority_bulkhead_instance b c =
      push Middleware.priority_bulkhead (record c { priority_bulkhead = b })

  -- The clock's time at which the option is applied comes first where a limiter is made.
  unfoldable pub with_rate_limiter : ℕ → F → ℤ → Config F V → Config F V
  unfolding new_rate_limiter
  with_rate_limiter now limit interval c =
      push Middleware.rate_limiter
        (record c { rate_limiter = some (new_rate_limiter limit interval now) })

  unfoldable pub with_rate_limiter_instance : Option (RateLimiter F) → Config F V → Config F V
  with_rate_limiter_instance rl c = push Middleware.rate_limiter (record c { rate_limiter = rl })

  unfoldable pub with_adaptive_limiter_instance :
      Option (AdaptiveLimiter F) → Config F V → Config F V
  with_adaptive_limiter_instance al c =
      push Middleware.adaptive_limiter (record c { adaptive_limiter = al })

  unfoldable pub with_timeout : ℤ → Config F V → Config F V
  with_timeout d c = push (Middleware.timeout d) (record c { timeout = d })

  unfoldable pub with_hedging_delay : ℤ → Config F V → Config F V
  with_hedging_delay d c = record c { hedging_delay = d }

  unfoldable pub with_adaptive_bucket : Option (AdaptiveBucket F) → Config F V → Config F V
  with_adaptive_bucket b c = record c { adaptive_bucket = b }

  unfoldable pub with_panic_recovery : Config F V → Config F V
  with_panic_recovery c = push Middleware.panic_recovery (record c { recover_panics = true })

  unfoldable pub with_chaos : Chaos F → Config F V → Config F V
  with_chaos cfg c = push Middleware.chaos (record c { chaos = some cfg })

  unfoldable pub with_min_deadline_threshold : ℤ → Config F V → Config F V
  with_min_deadline_threshold d c =
      push Middleware.deadline (record c { min_deadline_threshold = d })

module _ {F V : Type 0} ⦃f : Float F⦄ where
  unfoldable pub with_adaptive_limiter : ℕ → Config F V → Config F V
  unfolding new_adaptive_limiter
  with_adaptive_limiter now c =
      push Middleware.adaptive_limiter
        (record c { adaptive_limiter = some (new_adaptive_limiter now) })

module _ {F V : Type 0} where
  abbrev pub configure : List (Config F V → Config F V) → Config F V → Config F V
  configure [] c = c
  configure (o ∷ os) c = configure os (o c)

  unfoldable pub new : List (Config F V → Config F V) → Config F V
  unfolding default_config
  new opts = configure opts default_config

  unfoldable pub new_policy : List (Config F V → Config F V) → Config F V
  unfolding default_config
  new_policy opts = configure opts (record (default_config) { pipeline = some [] })
