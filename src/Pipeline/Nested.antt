-- ===== src/Pipeline/Nested.antt =====
-- What the options of a policy stand for, as functions round an action: the middleware of each.
use resile.Float.{Float}
use resile.Pipeline.Attempt.{chaos_middleware, retry_middleware, apply}
use resile.Pipeline.Choices.{
  Choice, adds, all_added, fallback, fallback_err, name, max_attempts, retry, base_delay, max_delay,
  timeout, hedging_delay, min_deadline_threshold, backoff, retry_if, retry_if_func, instrumenter,
  circuit_breaker, bulkhead, bulkhead_instance, priority_bulkhead, priority_bulkhead_instance,
  rate_limiter, rate_limiter_instance, adaptive_limiter, adaptive_limiter_instance, adaptive_bucket,
  panic_recovery, chaos,
}
use resile.Pipeline.Compose.{is_set, only_if, default_pipeline, compose}
use resile.Pipeline.Config.{Middleware, Config}
use resile.Pipeline.Guarded.{
  priority_bulkhead_middleware, rate_limiter_middleware, adaptive_limiter_middleware,
  circuit_breaker_middleware,
}
use resile.Pipeline.Middleware.{
  bulkhead_middleware, deadline_middleware, timeout_middleware, instrumenter_middleware,
  panic_recovery_middleware, fallback_middleware,
}
use resile.Pipeline.World.{DoAction}
use mathlib.Core.List.{append_assoc}
use resile.Prelude.{
  ◌≡◌, refl, ap, ◌∙◌, ltb_ℤ, pos, Bool, true, false, List, [], ◌∷◌, ◌++◌, if◌then◌else◌,
}

-- The default pipeline, associated to the right.
default_pipeline-right :
    {F V : Type 0} (c : Config F V)
    → default_pipeline c
      ≡ only_if (is_set c.rate_limiter) Middleware.rate_limiter
        ++ (only_if (is_set c.adaptive_limiter) Middleware.adaptive_limiter
            ++ (only_if (is_set c.bulkhead) Middleware.bulkhead
                ++ (only_if (is_set c.priority_bulkhead) Middleware.priority_bulkhead
                    ++ (Middleware.retry
                        ∷ Middleware.deadline
                        ∷ (only_if (ltb_ℤ (pos 0) c.timeout) (Middleware.timeout c.timeout)
                            ++ (only_if (is_set c.circuit_breaker) Middleware.circuit_breaker
                                ++ (Middleware.instrumenter
                                    ∷ (only_if c.recover_panics Middleware.panic_recovery
                                        ++ only_if (is_set c.chaos) Middleware.chaos))))))))
unfolding default_pipeline
default_pipeline-right c = simp (append_assoc)

module _ {F V U : Type 0} ⦃f : Float F⦄ where
  -- What an option puts round the rest of the pipeline; most of the settings put nothing.
  abbrev pub around : Choice F V → DoAction F V U → DoAction F V U
  around (fallback g) next = fallback_middleware next
  around (fallback_err g) next = fallback_middleware next
  around (name s) next = next
  around (max_attempts n) next = retry_middleware next
  around (retry n) next = retry_middleware next
  around (base_delay d) next = next
  around (max_delay d) next = next
  around (timeout d) next = timeout_middleware d next
  around (hedging_delay d) next = next
  around (min_deadline_threshold d) next = deadline_middleware next
  around (backoff b) next = next
  around (retry_if t) next = next
  around (retry_if_func g) next = next
  around (instrumenter i) next = instrumenter_middleware next
  around (circuit_breaker b) next = circuit_breaker_middleware next
  around (bulkhead n) next = bulkhead_middleware next
  around (bulkhead_instance b) next = bulkhead_middleware next
  around (priority_bulkhead n ts) next = priority_bulkhead_middleware next
  around (priority_bulkhead_instance b) next = priority_bulkhead_middleware next
  around (rate_limiter now l i) next = rate_limiter_middleware next
  around (rate_limiter_instance l) next = rate_limiter_middleware next
  around (adaptive_limiter now) next = adaptive_limiter_middleware next
  around (adaptive_limiter_instance l) next = adaptive_limiter_middleware next
  around (adaptive_bucket b) next = next
  around panic_recovery next = panic_recovery_middleware next
  around (chaos c) next = chaos_middleware next

  -- The options from the outside to the inside.
  abbrev pub nested : List (Choice F V) → DoAction F V U → DoAction F V U
  nested [] base = base
  nested (x ∷ xs) base = around x (nested xs base)

  abbrev when : Bool → (DoAction F V U → DoAction F V U) → DoAction F V U → DoAction F V U
  when b middleware next = if b then middleware next else next

  -- The default pipeline of a configuration, from the outside to the inside.
  abbrev pub by_default : Config F V → DoAction F V U → DoAction F V U
  by_default c base = when (is_set c.rate_limiter) rate_limiter_middleware (
      when (is_set c.adaptive_limiter) adaptive_limiter_middleware (
        when (is_set c.bulkhead) bulkhead_middleware (
          when (is_set c.priority_bulkhead) priority_bulkhead_middleware (
            retry_middleware (
              deadline_middleware (
                when (ltb_ℤ (pos 0) c.timeout) (timeout_middleware c.timeout) (
                  when (is_set c.circuit_breaker) circuit_breaker_middleware (
                    instrumenter_middleware (
                      when c.recover_panics panic_recovery_middleware
                        (when (is_set c.chaos) chaos_middleware base))))))))))

  compose-adds :
      (x : Choice F V) (ms : List Middleware) (base : DoAction F V U)
      → compose (adds x ++ ms) base ≡ around x (compose ms base)
  unfolding compose apply
  compose-adds (fallback g) ms base = refl
  compose-adds (fallback_err g) ms base = refl
  compose-adds (name s) ms base = refl
  compose-adds (max_attempts n) ms base = refl
  compose-adds (retry n) ms base = refl
  compose-adds (base_delay d) ms base = refl
  compose-adds (max_delay d) ms base = refl
  compose-adds (timeout d) ms base = refl
  compose-adds (hedging_delay d) ms base = refl
  compose-adds (min_deadline_threshold d) ms base = refl
  compose-adds (backoff b) ms base = refl
  compose-adds (retry_if t) ms base = refl
  compose-adds (retry_if_func g) ms base = refl
  compose-adds (instrumenter i) ms base = refl
  compose-adds (circuit_breaker b) ms base = refl
  compose-adds (bulkhead n) ms base = refl
  compose-adds (bulkhead_instance b) ms base = refl
  compose-adds (priority_bulkhead n ts) ms base = refl
  compose-adds (priority_bulkhead_instance b) ms base = refl
  compose-adds (rate_limiter now l i) ms base = refl
  compose-adds (rate_limiter_instance l) ms base = refl
  compose-adds (adaptive_limiter now) ms base = refl
  compose-adds (adaptive_limiter_instance l) ms base = refl
  compose-adds (adaptive_bucket b) ms base = refl
  compose-adds panic_recovery ms base = refl
  compose-adds (chaos c) ms base = refl

  pub compose-all_added :
      (xs : List (Choice F V)) (base : DoAction F V U)
      → compose (all_added xs) base ≡ nested xs base
  unfolding compose
  compose-all_added [] base = refl
  compose-all_added (x ∷ xs) base =
      compose-adds x (all_added xs) base ∙ ap (around x) (compose-all_added xs base)

  -- A middleware that the default pipeline has only if a component is set.
  compose-only_if :
      (b : Bool) (m : Middleware) (ms : List Middleware) (base inner : DoAction F V U)
      → compose ms base ≡ inner
      → compose (only_if b m ++ ms) base ≡ when b (apply m) inner
  unfolding compose
  compose-only_if true m ms base inner e = ap (apply m) e
  compose-only_if false m ms base inner e = e

  compose-last :
      (b : Bool) (m : Middleware) (base : DoAction F V U)
      → compose (only_if b m) base ≡ when b (apply m) base
  unfolding compose
  compose-last true m base = refl
  compose-last false m base = refl

  compose-retry :
      (ms : List Middleware) (base inner : DoAction F V U)
      → compose ms base ≡ inner
      → compose (Middleware.retry ∷ Middleware.deadline ∷ ms) base
        ≡ retry_middleware (deadline_middleware inner)
  unfolding compose apply
  compose-retry ms base inner e = ap (λ a. retry_middleware (deadline_middleware a)) e

  compose-instrumenter :
      (ms : List Middleware) (base inner : DoAction F V U)
      → compose ms base ≡ inner
      → compose (Middleware.instrumenter ∷ ms) base ≡ instrumenter_middleware inner
  unfolding compose apply
  compose-instrumenter ms base inner e = ap instrumenter_middleware e

  pub compose-default :
      (c : Config F V) (base : DoAction F V U)
      → compose (default_pipeline c) base ≡ by_default c base
  unfolding apply
  compose-default c base =
      ap (λ l. compose l base) (default_pipeline-right c)
      ∙ compose-only_if (is_set c.rate_limiter) Middleware.rate_limiter _ base _ (
          compose-only_if (is_set c.adaptive_limiter) Middleware.adaptive_limiter _ base _ (
            compose-only_if (is_set c.bulkhead) Middleware.bulkhead _ base _ (
              compose-only_if (is_set c.priority_bulkhead) Middleware.priority_bulkhead _ base _ (
                compose-retry _ base _ (
                  compose-only_if (ltb_ℤ (pos 0) c.timeout) (Middleware.timeout c.timeout) _ base _
                    (compose-only_if (is_set c.circuit_breaker) Middleware.circuit_breaker _ base _
                      (compose-instrumenter _ base _ (
                        compose-only_if c.recover_panics Middleware.panic_recovery _ base _
                          (compose-last (is_set c.chaos) Middleware.chaos base)))))))))
