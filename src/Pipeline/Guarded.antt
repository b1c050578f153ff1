-- ===== src/Pipeline/Guarded.antt =====
-- The middlewares of retry.go for the priority bulkhead, the two limiters and the circuit breaker.
use resile.Circuit.Breaker
use resile.Circuit.Breaker.{Admission}
use resile.Circuit.State.{State, Breaker}
use resile.Context.{Context, ctx_err}
use resile.Errors.{rate_limit_exceeded, Err, sentinel}
use resile.Float.{Float}
use resile.Limits.Adaptive
use resile.Limits.Adaptive.{AdaptiveLimiter}
use resile.Limits.Bulkhead
use resile.Limits.Bulkhead.{Bulkhead, PriorityBulkhead, Entry}
use resile.Limits.Rate
use resile.Limits.Rate.{RateLimiter}
use resile.Pipeline.World.{on_bulkhead_full, on_rate_limit_exceeded, World, DoAction}
use resile.Retry.Loop.{RetryState, Outcome, returned, panicked}
use resile.Prelude.{ℕ, sub_ℕ, Bool, true, false, Option, none, some}
use resile.Pipeline.Middleware.{is_full_or_shed, with_config, tell_if, in_priority_bulkhead}

module _ {F V U : Type 0} ⦃f : Float F⦄ where
  abbrev pub through_priority_bulkhead :
      DoAction F V U
      → Context
      → RetryState
      → World F V U
      → Option (PriorityBulkhead F)
      → Outcome × World F V U
  through_priority_bulkhead next ctx st w none = next ctx st w
  through_priority_bulkhead next ctx st w (some b) =
      let (entry, b') = Bulkhead.enter_priority w.takes_slot ctx w.clock b in
      let (r, w') =
        in_priority_bulkhead next ctx st
          (with_config (λ c. record c { priority_bulkhead = some b' }) w) entry in
      (r, tell_if (is_full_or_shed r) (on_bulkhead_full st) w')

  unfoldable pub priority_bulkhead_middleware : DoAction F V U → DoAction F V U
  priority_bulkhead_middleware next ctx st w =
      through_priority_bulkhead next ctx st w w.config.priority_bulkhead

  abbrev pub if_token :
      DoAction F V U → Context → RetryState → World F V U → Bool → Outcome × World F V U
  if_token next ctx st w true = next ctx st w
  if_token next ctx st w false =
      (returned (some (sentinel rate_limit_exceeded)), tell_if true (on_rate_limit_exceeded st) w)

  abbrev pub through_rate_limiter :
      DoAction F V U
      → Context
      → RetryState
      → World F V U
      → Option (RateLimiter F)
      → Outcome × World F V U
  through_rate_limiter next ctx st w none = next ctx st w
  through_rate_limiter next ctx st w (some rl) =
      let (ok, rl') = Rate.acquire w.clock rl in
      if_token next ctx st (with_config (λ c. record c { rate_limiter = some rl' }) w) ok

  unfoldable pub rate_limiter_middleware : DoAction F V U → DoAction F V U
  rate_limiter_middleware next ctx st w = through_rate_limiter next ctx st w w.config.rate_limiter

  -- The end of the limiter's Execute: the deferred addition, also on a panic, and before it the
  -- update with the round-trip time where the action returned.
  abbrev pub change_limiter : (AdaptiveLimiter F → AdaptiveLimiter F) → World F V U → World F V U
  change_limiter g w =
      with_config
        (λ c. record c {
          adaptive_limiter = elim c.adaptive_limiter [ none ↦ none | some al ↦ some (g al) ];
        })
        w

  abbrev pub limited : ℕ → Outcome × World F V U → Outcome × World F V U
  limited start (returned e, w) = (
    returned e,
    change_limiter (λ al. Adaptive.leave (Adaptive.update (sub_ℕ w.clock start) w.clock al)) w,
  )
  limited start (panicked v, w) = (panicked v, change_limiter Adaptive.leave w)

  abbrev pub in_limiter :
      DoAction F V U → Context → RetryState → World F V U → Option Err → Outcome × World F V U
  in_limiter next ctx st w (some e) = (returned (some e), change_limiter Adaptive.leave w)
  in_limiter next ctx st w none = limited w.clock (next ctx st w)

  abbrev pub through_adaptive_limiter :
      DoAction F V U
      → Context
      → RetryState
      → World F V U
      → Option (AdaptiveLimiter F)
      → Outcome × World F V U
  through_adaptive_limiter next ctx st w none = next ctx st w
  through_adaptive_limiter next ctx st w (some al) =
      let (refusal, al') = Adaptive.enter al in
      in_limiter next ctx st (with_config (λ c. record c { adaptive_limiter = some al' }) w) refusal

  unfoldable pub adaptive_limiter_middleware : DoAction F V U → DoAction F V U
  adaptive_limiter_middleware next ctx st w =
      through_adaptive_limiter next ctx st w w.config.adaptive_limiter

  -- The second critical section of the breaker's Execute, which a panic skips.
  abbrev pub finished : State → Outcome × World F V U → Outcome × World F V U
  finished s (returned e, w) = (
    returned e,
    with_config
        (λ c. record c {
          circuit_breaker = elim c.circuit_breaker [
            | none ↦ none
            | some b ↦ some (Breaker.finish s e w.clock b)
          ];
        })
        w,
  )
  finished s (panicked v, w) = (panicked v, w)

  abbrev pub in_breaker :
      DoAction F V U → Context → RetryState → World F V U → Admission → Outcome × World F V U
  in_breaker next ctx st w (Admission.refused e) = (returned (some e), w)
  in_breaker next ctx st w (Admission.admitted s) = finished s (next ctx st w)

  abbrev pub through_breaker :
      DoAction F V U
      → Context
      → RetryState
      → World F V U
      → Option (Breaker F)
      → Outcome × World F V U
  through_breaker next ctx st w none = next ctx st w
  through_breaker next ctx st w (some b) =
      let (admission, b') = Breaker.begin (ctx_err ctx w.clock) w.clock b in
      in_breaker next ctx st (with_config (λ c. record c { circuit_breaker = some b' }) w) admission

  unfoldable pub circuit_breaker_middleware : DoAction F V U → DoAction F V U
  circuit_breaker_middleware next ctx st w = through_breaker next ctx st w w.config.circuit_breaker
