-- ===== src/Pipeline/Chain.antt =====
-- What a whole pipeline of retry.go passes on of what is inside it.
use resile.Context.{remaining, with_timeout}
use resile.Float.{Float}
use resile.Pipeline.Config.{
  Middleware, rate_limiter, adaptive_limiter, bulkhead, priority_bulkhead, retry, deadline, timeout,
  circuit_breaker, instrumenter, panic_recovery, chaos, fallback,
}
use resile.Pipeline.World.{World, DoAction}
use resile.Pipeline.Middleware.{
  bulkhead_middleware, deadline_middleware, timeout_middleware, instrumenter_middleware,
  panic_recovery_middleware, fallback_middleware,
}
use resile.Pipeline.Guarded.{
  priority_bulkhead_middleware, rate_limiter_middleware, adaptive_limiter_middleware,
  circuit_breaker_middleware,
}
use resile.Pipeline.Attempt.{chaos_middleware, retry_middleware, apply}
use resile.Pipeline.Compose.{compose}
use resile.Pipeline.Frame.{
  IsFrame, Affords, through_bulkhead-Affords, through_deadline-Affords,
  through_instrumenter-Affords, recovered-Affords, fall_back-Affords,
}
use resile.Pipeline.Framed.{
  through_priority_bulkhead-Affords, through_rate_limiter-Affords, through_adaptive_limiter-Affords,
  through_breaker-Affords, through_chaos-Affords,
}
use resile.Retry.Loop.{Outcome}
use resile.Prelude.{ℕ, ◌*◌, refl, List, [], ◌∷◌}

-- What a pipeline may spend where what is inside it may spend n, and MaxAttempts is m.
abbrev pub allowed : ℕ → List Middleware → ℕ → ℕ
allowed m [] n = n
allowed m (retry ∷ ms) n = m * allowed m ms n
allowed m (rate_limiter ∷ ms) n = allowed m ms n
allowed m (adaptive_limiter ∷ ms) n = allowed m ms n
allowed m (bulkhead ∷ ms) n = allowed m ms n
allowed m (priority_bulkhead ∷ ms) n = allowed m ms n
allowed m (deadline ∷ ms) n = allowed m ms n
allowed m (timeout d ∷ ms) n = allowed m ms n
allowed m (circuit_breaker ∷ ms) n = allowed m ms n
allowed m (instrumenter ∷ ms) n = allowed m ms n
allowed m (panic_recovery ∷ ms) n = allowed m ms n
allowed m (chaos ∷ ms) n = allowed m ms n
allowed m (fallback ∷ ms) n = allowed m ms n

-- `again` says what the retry loop makes of what is inside it.
module _ {F V U : Type 0} ⦃f : Float F⦄ (Covers : ℕ → World F V U → Outcome × World F V U → Type 0)
    (frame : (n : ℕ) → IsFrame (Covers n)) (m : ℕ)
    (again : (n : ℕ) (next : DoAction F V U)
      → Affords (Covers n) (frame n) next
      → Affords (Covers (m * n)) (frame (m * n)) (retry_middleware next)) where
  pub compose-Affords :
      (ms : List Middleware) (n : ℕ) (base : DoAction F V U)
      → Affords (Covers n) (frame n) base
      → Affords (Covers (allowed m ms n)) (frame (allowed m ms n)) (compose ms base)
  unfolding compose apply rate_limiter_middleware adaptive_limiter_middleware bulkhead_middleware
      priority_bulkhead_middleware deadline_middleware timeout_middleware circuit_breaker_middleware
      instrumenter_middleware panic_recovery_middleware chaos_middleware fallback_middleware
  compose-Affords [] n base p ctx st w = p ctx st w
  compose-Affords (retry ∷ ms) n base p ctx st w =
      again (allowed m ms n) (compose ms base) (compose-Affords ms n base p) ctx st w
  compose-Affords (rate_limiter ∷ ms) n base p ctx st w =
      through_rate_limiter-Affords (Covers (allowed m ms n)) (frame (allowed m ms n))
        (compose ms base) (compose-Affords ms n base p) ctx st w w.config.rate_limiter
  compose-Affords (adaptive_limiter ∷ ms) n base p ctx st w =
      through_adaptive_limiter-Affords (Covers (allowed m ms n)) (frame (allowed m ms n))
        (compose ms base) (compose-Affords ms n base p) ctx st w w.config.adaptive_limiter
  compose-Affords (bulkhead ∷ ms) n base p ctx st w =
      through_bulkhead-Affords (Covers (allowed m ms n)) (frame (allowed m ms n)) (compose ms base)
        (compose-Affords ms n base p) ctx st w w.config.bulkhead
  compose-Affords (priority_bulkhead ∷ ms) n base p ctx st w =
      through_priority_bulkhead-Affords (Covers (allowed m ms n)) (frame (allowed m ms n))
        (compose ms base) (compose-Affords ms n base p) ctx st w w.config.priority_bulkhead
  compose-Affords (deadline ∷ ms) n base p ctx st w =
      through_deadline-Affords (Covers (allowed m ms n)) (frame (allowed m ms n)) (compose ms base)
        (compose-Affords ms n base p) ctx st w (remaining ctx w.clock)
  compose-Affords (timeout d ∷ ms) n base p ctx st w =
      compose-Affords ms n base p (with_timeout ctx d w.clock) st w
  compose-Affords (circuit_breaker ∷ ms) n base p ctx st w =
      through_breaker-Affords (Covers (allowed m ms n)) (frame (allowed m ms n)) (compose ms base)
        (compose-Affords ms n base p) ctx st w w.config.circuit_breaker
  compose-Affords (instrumenter ∷ ms) n base p ctx st w =
      through_instrumenter-Affords (Covers (allowed m ms n)) (frame (allowed m ms n))
        (compose ms base) (compose-Affords ms n base p) ctx st w w.config.instrumenter
  compose-Affords (panic_recovery ∷ ms) n base p ctx st w =
      let (r, v) = compose ms base ctx st w in
      recovered-Affords (Covers (allowed m ms n)) (frame (allowed m ms n)) w v r
        (compose-Affords ms n base p ctx st w)
  compose-Affords (chaos ∷ ms) n base p ctx st w =
      through_chaos-Affords (Covers (allowed m ms n)) (frame (allowed m ms n)) (compose ms base)
        (compose-Affords ms n base p) ctx st w w.config.chaos
  compose-Affords (fallback ∷ ms) n base p ctx st w =
      let (r, v) = compose ms base ctx st w in
      fall_back-Affords (Covers (allowed m ms n)) (frame (allowed m ms n)) ctx v.config.fallback w v
        r refl (compose-Affords ms n base p ctx st w)
