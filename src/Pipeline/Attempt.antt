-- ===== src/Pipeline/Attempt.antt =====
-- The middlewares of retry.go for chaos and for the retry loop, with the injector of
-- chaos/injector.go, and the one that a name of the pipeline stands for.
use resile.Context.{Context, done_at, wait_until, sleep}
use resile.Errors.{Err}
use resile.Float.{Float}
use resile.Pipeline.Config.{
  Chaos, Middleware, rate_limiter, adaptive_limiter, bulkhead, priority_bulkhead, retry, deadline,
  timeout, circuit_breaker, instrumenter, panic_recovery, chaos, fallback, Config,
}
use resile.Pipeline.World.{World, DoAction, draw, draw_float}
use resile.Retry.Backoff.{backoff_next}
use resile.Retry.Bucket.{AdaptiveBucket, acquire_retry_token, add_success_token}
use resile.Retry.Loop.{RetryState, Outcome, returned, panicked, Effects}
use resile.Retry.Loop
use resile.Retry.Policy.{should_retry_err}
use resile.Prelude.{
  ℕ, ◌+◌, pos, pos_part, ltb_ℤ, Bool, true, false, Option, none, some, if◌then◌else◌,
}
use resile.Pipeline.Middleware.{
  with_config, bulkhead_middleware, deadline_middleware, timeout_middleware,
  instrumenter_middleware, panic_recovery_middleware, fallback_middleware,
}
use resile.Pipeline.Guarded.{
  priority_bulkhead_middleware, rate_limiter_middleware, adaptive_limiter_middleware,
  circuit_breaker_middleware,
}

module _ {F V U : Type 0} ⦃f : Float F⦄ where
  -- The injector's Execute: first the latency, then the error. A roll is made only if it matters.
  abbrev pub roll : Bool → F → World F V U → Bool × World F V U
  roll false p w = (false, w)
  roll true p w = let (x, w') = draw_float w in (f.lt x p, w')

  abbrev pub or_error :
      F → DoAction F V U → Context → RetryState → World F V U → Option Err → Outcome × World F V U
  or_error p next ctx st w none = next ctx st w
  or_error p next ctx st w (some e) =
      let (hit, w') = roll true p w in if hit then (returned (some e), w') else next ctx st w'

  abbrev pub or_inject :
      Chaos F → DoAction F V U → Context → RetryState → World F V U → Outcome × World F V U
  or_inject c next ctx st w = or_error c.error_probability next ctx st w c.injected_error

  abbrev pub delayed_by :
      Chaos F
      → DoAction F V U
      → Context
      → RetryState
      → World F V U
      → Option Err × ℕ
      → Outcome × World F V U
  delayed_by c next ctx st w (some e, t) = (returned (some e), record w { clock = t })
  delayed_by c next ctx st w (none, t) = or_inject c next ctx st (record w { clock = t })

  unfoldable pub inject : Chaos F → DoAction F V U → DoAction F V U
  inject c next ctx st w =
      let (slow, w') = roll (ltb_ℤ (pos 0) c.latency_duration) c.latency_probability w in
      if slow
      then delayed_by c next ctx st w'
          (wait_until w'.clock (w'.clock + pos_part c.latency_duration) (done_at ctx))
      else or_inject c next ctx st w'

  abbrev pub through_chaos :
      DoAction F V U → Context → RetryState → World F V U → Option (Chaos F) → Outcome × World F V U
  through_chaos next ctx st w none = next ctx st w
  through_chaos next ctx st w (some c) = inject c next ctx st w

  unfoldable pub chaos_middleware : DoAction F V U → DoAction F V U
  unfolding inject
  chaos_middleware next ctx st w = through_chaos next ctx st w w.config.chaos

  -- What the retry loop calls, for a context and the rest of the pipeline.
  abbrev pub acquire_from : World F V U → Option (AdaptiveBucket F) → Bool × World F V U
  acquire_from w none = (true, w)
  acquire_from w (some b) =
      let (ok, b') = acquire_retry_token b in
      (ok, with_config (λ c. record c { adaptive_bucket = some b' }) w)

  abbrev pub sleep_until : World F V U → Option Err × ℕ → Option Err × World F V U
  sleep_until w (e, t) = (e, record w { clock = t })

  abbrev pub effects : Config F V → DoAction F V U → Context → Effects (World F V U)
  effects c next ctx = record {
    clock = λ w. w.clock;
    next = λ st w. next ctx st w;
    should_retry = λ e. should_retry_err c.policy e;
    add_success_token = λ w.
        with_config
          (λ k. record k {
            adaptive_bucket = elim k.adaptive_bucket [
              | none ↦ none
              | some b ↦ some (add_success_token b)
            ];
          })
          w;
    acquire_retry_token = λ w. acquire_from w w.config.adaptive_bucket;
    next_delay = λ n w. let (random, w') = draw w in (backoff_next F c.backoff n random, w');
    sleep = λ d w. sleep_until w (sleep ctx d w.clock);
  }

  unfoldable pub retry_middleware : DoAction F V U → DoAction F V U
  retry_middleware next ctx st w = Loop.retry (effects w.config next ctx) w.config.max_attempts st w

  unfoldable pub apply : Middleware → DoAction F V U → DoAction F V U
  apply rate_limiter next = rate_limiter_middleware next
  apply adaptive_limiter next = adaptive_limiter_middleware next
  apply bulkhead next = bulkhead_middleware next
  apply priority_bulkhead next = priority_bulkhead_middleware next
  apply retry next = retry_middleware next
  apply deadline next = deadline_middleware next
  apply (timeout d) next = timeout_middleware d next
  apply circuit_breaker next = circuit_breaker_middleware next
  apply instrumenter next = instrumenter_middleware next
  apply panic_recovery next = panic_recovery_middleware next
  apply chaos next = chaos_middleware next
  apply fallback next = fallback_middleware next
