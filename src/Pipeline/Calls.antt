-- ===== src/Pipeline/Calls.antt =====
-- How often a whole execution of retry.go calls the action.
use resile.Context.{Context}
use resile.Float.{Float}
use resile.Pipeline.Config.{
  Middleware, rate_limiter, adaptive_limiter, bulkhead, priority_bulkhead, retry, deadline, timeout,
  circuit_breaker, panic_recovery, chaos, instrumenter, Config,
}
use resile.Pipeline.World.{World, DoAction}
use resile.Pipeline.Compose.{
  is_set, only_if, default_pipeline, terminal_action, get_composed_pipeline, build_default_pipeline,
  first_state, execute,
}
use resile.Pipeline.Order.{outside, inside, fresh_pipeline, default_pipeline-parts}
use resile.Pipeline.Budget.{IsFair, compose-Reach}
use resile.Pipeline.Chain.{allowed}
use resile.Retry.Loop.{RetryState}
use resile.Prelude.{
  ℕ, ◌+◌, ◌*◌, ◌≤◌, ltb_ℤ, pos, ◌≡◌, refl, ap, ◌∙◌, subst, Bool, true, false, none, some, List, [],
  ◌∷◌, ◌++◌, arith,
}

module _ {F V U : Type 0} (count : U → ℕ) (m : ℕ) where
  -- Where MaxAttempts is m, it stays so, and the count grows by k at most.
  abbrev AtMost : ℕ → World F V U → World F V U → Type 0
  AtMost k v w =
      v.config.max_attempts ≡ m → (count w.user ≤ count v.user + k) × (w.config.max_attempts ≡ m)

  AtMost-IsFair : IsFair AtMost
  AtMost-IsFair = record {
    budget = record {
      still = λ w e. (omega arith, e);
      join = λ j k u v w p q e. let (a, h) = p e in let (c, l) = q h in (omega arith, l);
      more = λ j k u v h p e. let (a, l) = p e in (omega arith, l);
    };
    free = λ v w q e. (omega (arith, ap count q.0), q.1 ∙ e);
  }

  AtMost-known :
      (n : ℕ) (v w : World F V U) → AtMost (v.config.max_attempts * n) v w → AtMost (m * n) v w
  AtMost-known n v w p e =
      subst (λ (k : ℕ). (count w.user ≤ count v.user + k * n) × (w.config.max_attempts ≡ m)) e (p e)

allowed-append :
    (m : ℕ) (ms ns : List Middleware) (n : ℕ)
    → allowed m (ms ++ ns) n ≡ allowed m ms (allowed m ns n)
allowed-append m [] ns n = refl
allowed-append m (retry ∷ ms) ns n = ap (λ (k : ℕ). m * k) (allowed-append m ms ns n)
allowed-append m (x ∷ ms) ns n = allowed-append m ms ns n

-- No retry loop among them.
record IsPlain (m : ℕ) (ms : List Middleware) : Type 0 where
  costs : (n : ℕ) → allowed m ms n ≡ n

infixl 5 ◌also◌
◌also◌ : {m : ℕ} {ms ns : List Middleware} → IsPlain m ms → IsPlain m ns → IsPlain m (ms ++ ns)
◌also◌ {m} {ms} {ns} p q = record {
  costs = λ n. allowed-append m ms ns n ∙ p.costs (allowed m ns n) ∙ q.costs n;
}

when :
    {m : ℕ} (b : Bool) (x : Middleware)
    → ((n : ℕ) → allowed m (x ∷ []) n ≡ n)
    → IsPlain m (only_if b x)
when true x h = record { costs = h }
when false x h = record { costs = λ n. refl }

module _ {F V : Type 0} (c : Config F V) (m : ℕ) where
  inside-IsPlain : IsPlain m (inside c)
  inside-IsPlain =
      when true deadline (λ n. refl)
      also when (ltb_ℤ (pos 0) c.timeout) (timeout c.timeout) (λ n. refl)
      also when (is_set c.circuit_breaker) circuit_breaker (λ n. refl)
      also when true instrumenter (λ n. refl)
      also when c.recover_panics panic_recovery (λ n. refl)
      also when (is_set c.chaos) chaos (λ n. refl)

  outside-IsPlain : IsPlain m (outside c)
  outside-IsPlain =
      when (is_set c.rate_limiter) rate_limiter (λ n. refl)
      also when (is_set c.adaptive_limiter) adaptive_limiter (λ n. refl)
      also when (is_set c.bulkhead) bulkhead (λ n. refl)
      also when (is_set c.priority_bulkhead) priority_bulkhead (λ n. refl)

  allowed-default : (n : ℕ) → allowed m (default_pipeline c) n ≡ m * n
  allowed-default n =
      ap (λ ms. allowed m ms n) (default_pipeline-parts c)
      ∙ allowed-append m (outside c) (retry ∷ inside c) n
      ∙ outside-IsPlain.costs (allowed m (retry ∷ inside c) n)
      ∙ ap (λ (k : ℕ). m * k) (inside-IsPlain.costs n)

module _ {F V : Type 0} where
  pub composed-config :
      (c : Config F V) → ((get_composed_pipeline c).1.max_attempts ≡ c.max_attempts)
  unfolding get_composed_pipeline build_default_pipeline
  composed-config c = ground arith

module _ {F V U : Type 0} ⦃f : Float F⦄ where
  -- An action that adds at most one to a count of the caller's, and leaves MaxAttempts alone, adds in
  -- a whole execution at most MaxAttempts for each retry loop of the pipeline, multiplied where one
  -- loop is inside another: what every other middleware does calls it at most once.
  execute-calls :
      (count : U → ℕ) (ctx : Context) (action : DoAction F V U) (w : World F V U)
      → ((c : Context) (s : RetryState) (v : World F V U)
          → (count (action c s v).1.user ≤ count v.user + 1)
            × ((action c s v).1.config.max_attempts ≡ v.config.max_attempts))
      → count (execute ctx (some action) none w).1.user
        ≤ count w.user + allowed w.config.max_attempts (get_composed_pipeline w.config).0 1
  unfolding execute terminal_action
  execute-calls count ctx action w once =
      let (ms, c) = get_composed_pipeline w.config in
      let m = w.config.max_attempts in
      (compose-Reach (AtMost count m) (AtMost-IsFair count m) m (AtMost-known count m) ms 1
        (terminal_action none (some action)) (λ k s v e. let (a, h) = once k s v in (a, h ∙ e)) ctx
        (first_state c) (record w { config = c }) (composed-config w.config)).0

  -- Without a policy, and with the pipeline not yet composed, that is MaxAttempts in all.
  pub execute-calls_default :
      (count : U → ℕ) (ctx : Context) (action : DoAction F V U) (w : World F V U)
      → ((c : Context) (s : RetryState) (v : World F V U)
          → (count (action c s v).1.user ≤ count v.user + 1)
            × ((action c s v).1.config.max_attempts ≡ v.config.max_attempts))
      → w.config.composed ≡ none
      → w.config.pipeline ≡ none
      → count (execute ctx (some action) none w).1.user ≤ count w.user + w.config.max_attempts
  execute-calls_default count ctx action w once fresh bare =
      let ms = ap (λ l. allowed w.config.max_attempts l 1) (fresh_pipeline w.config fresh bare).0 in
      omega (
        arith,
        execute-calls count ctx action w once,
        ms,
        allowed-default w.config w.config.max_attempts 1,
      )
