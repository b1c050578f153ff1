-- ===== src/Pipeline/Recovery.antt =====
-- A whole execution of retry.go gets over errors that pass.
use resile.Context.{Context, done_at, remaining, sleep}
use resile.Errors.{Err}
use resile.Float.{Float}
use resile.Pipeline.Config.{Middleware, deadline, timeout, instrumenter, panic_recovery, Config}
use resile.Pipeline.World.{World, DoAction}
use resile.Pipeline.Attempt.{apply, effects, retry_middleware}
use resile.Pipeline.Middleware.{deadline_middleware, through_deadline}
use resile.Pipeline.Compose.{
  compose, execute, get_composed_pipeline, build_default_pipeline, only_if, first_state,
}
use resile.Pipeline.Order.{outside, inside, execute-default}
use resile.Retry.Loop.{RetryState, Outcome, returned, panicked}
use resile.Retry.Policy.{should_retry_err}
use resile.Retry.Recovery.{IsPassing, IsTransient, retry-succeeds}
use mathlib.Core.List.{append_assoc}
use resile.Prelude.{
  ℕ, suc, ◌+◌, ◌<◌, ◌≡◌, refl, sym, ap, ◌∙◌, subst, pos, ltb_ℤ, ℤ, Bool, none, some, List, [], ◌∷◌,
  ◌++◌, arith,
}
use resile.Pipeline.Flaky.{
  Passes, IsFlaky, Lets, append-Lets, maybe, timeout-Lets, instrumenter-Lets, recovery-Lets,
  nothing,
}

-- No limiter, bulkhead, breaker, chaos or bucket, and no pipeline yet.
pub record IsBare {F V : Type 0} (c : Config F V) : Type 0 where
  pub composed : c.composed ≡ none
  pub pipeline : c.pipeline ≡ none
  pub rate_limiter : c.rate_limiter ≡ none
  pub adaptive_limiter : c.adaptive_limiter ≡ none
  pub bulkhead : c.bulkhead ≡ none
  pub priority_bulkhead : c.priority_bulkhead ≡ none
  pub circuit_breaker : c.circuit_breaker ≡ none
  pub chaos : c.chaos ≡ none
  pub adaptive_bucket : c.adaptive_bucket ≡ none

module _ {F V : Type 0} where
  outside-bare : (c : Config F V) → IsBare c → outside c ≡ []
  outside-bare c b = rw (b.rate_limiter, b.adaptive_limiter, b.bulkhead, b.priority_bulkhead) refl

  abbrev behind_deadline : Config F V → List Middleware
  behind_deadline c =
      only_if (ltb_ℤ (pos 0) c.timeout) (timeout c.timeout)
      ++ ((instrumenter ∷ []) ++ (only_if c.recover_panics panic_recovery ++ []))

  inside-bare : (c : Config F V) → IsBare c → inside c ≡ deadline ∷ behind_deadline c
  inside-bare c b = simp (b.circuit_breaker, b.chaos, append_assoc)

-- A context without a deadline, that is never canceled.
abbrev pub NeverDone : Context → Type 0
NeverDone ctx = (ctx.deadline ≡ none) × (ctx.canceled_at ≡ none)

sleep-none : (ctx : Context) (d : ℤ) (now : ℕ) → NeverDone ctx → (sleep ctx d now).0 ≡ none
unfolding sleep done_at
sleep-none ctx d now (a, b) = rw (a, b) (ground arith)

remaining-none : (ctx : Context) (now : ℕ) → ctx.deadline ≡ none → remaining ctx now ≡ none
unfolding remaining
remaining-none ctx now e = rw e refl

module _ {F V U : Type 0} ⦃f : Float F⦄ (should_retry : Err → Bool) (left : ℕ → U → ℕ) where
  behind_deadline-Lets : (c : Config F V) → Lets F V should_retry left (behind_deadline c)
  behind_deadline-Lets c =
      append-Lets F V should_retry left (only_if (ltb_ℤ (pos 0) c.timeout) (timeout c.timeout)) _
        (maybe F V should_retry left _ (timeout c.timeout)
          (timeout-Lets F V should_retry left c.timeout))
        (append-Lets F V should_retry left (instrumenter ∷ []) _
          (instrumenter-Lets F V should_retry left)
          (append-Lets F V should_retry left (only_if c.recover_panics panic_recovery) []
            (maybe F V should_retry left c.recover_panics panic_recovery
              (recovery-Lets F V should_retry left))
            (nothing F V should_retry left)))

  inside-IsFlaky :
      (c : Config F V) (action : DoAction F V U) (ctx : Context) (st : RetryState) (w : World F V U)
      → IsBare c
      → NeverDone ctx
      → IsFlaky should_retry left action
      → w.config.adaptive_bucket ≡ none
      → Passes should_retry left st.attempt
          (left st.attempt w.user)
          (compose (inside c) action ctx st w)
  unfolding compose apply deadline_middleware
  inside-IsFlaky c action ctx st w b (far, never) flaky h =
      let next = compose (behind_deadline c) action in
      subst
        (λ ms.
          Passes should_retry left st.attempt (left st.attempt w.user) (compose ms action ctx st w))
        (sym (inside-bare c b))
        (subst
          (λ o.
            Passes should_retry left st.attempt (left st.attempt w.user)
              (through_deadline next ctx st w o))
          (sym (remaining-none ctx w.clock far)) (behind_deadline-Lets c action flaky ctx st w h))

module _ {F V U : Type 0} ⦃f : Float F⦄ (left : ℕ → U → ℕ) where
  -- What the loop's effects ask for, from what is known of the rest of the pipeline.
  Passes-fails :
      (should_retry : Err → Bool) (n m k : ℕ) (x : Outcome × World F V U)
      → m ≡ suc k
      → Passes should_retry left n m x
      → (e : Err) × (x.0 ≡ returned (some e))
        × IsPassing should_retry e
        × (x.1.config.adaptive_bucket ≡ none)
        × (left (n + 1) x.1.user ≡ k)
  Passes-fails should_retry n m k x at h = go x (subst (λ j. Passes should_retry left n j x) at h)
    where
      go :
          (x : Outcome × World F V U)
          → Passes should_retry left n (suc k) x
          → (e : Err) × (x.0 ≡ returned (some e))
            × IsPassing should_retry e
            × (x.1.config.adaptive_bucket ≡ none)
            × (left (n + 1) x.1.user ≡ k)
      go (returned none, w) h = absurd h
      go (returned (some e), w) (passing, same, fewer) = (e, refl, passing, same, fewer)
      go (panicked v, w) h = absurd h

  Passes-succeeds :
      (should_retry : Err → Bool) (n m : ℕ) (x : Outcome × World F V U)
      → m ≡ 0
      → Passes should_retry left n m x
      → x.0 ≡ returned none
  Passes-succeeds should_retry n m x at h = go x (subst (λ j. Passes should_retry left n j x) at h)
    where
      go : (x : Outcome × World F V U) → Passes should_retry left n 0 x → x.0 ≡ returned none
      go (returned none, w) h = refl
      go (returned (some e), w) h = absurd h
      go (panicked v, w) h = absurd h

  effects-IsTransient :
      (c : Config F V) (next : DoAction F V U) (ctx : Context)
      → NeverDone ctx
      → ((st : RetryState) (w : World F V U)
          → w.config.adaptive_bucket ≡ none
          → Passes
              (λ e. should_retry_err c.policy e)
              left
              st.attempt
              (left st.attempt w.user)
              (next ctx st w))
      → IsTransient
          (effects c next ctx)
          (λ w. w.config.adaptive_bucket ≡ none)
          (λ n w. left n w.user)
  effects-IsTransient c next ctx never p = record {
    succeeds = λ st w h at.
        Passes-succeeds (λ e. should_retry_err c.policy e) st.attempt (left st.attempt w.user)
          (next ctx st w) at (p st w h);
    fails = λ st w k h at.
        Passes-fails (λ e. should_retry_err c.policy e) st.attempt (left st.attempt w.user) k
          (next ctx st w) at (p st w h);
    granted = λ n w h. rw h (refl, refl, refl);
    delayed = λ n a w h.
        elim w.draws
          as (λ ds.
            let v = ((effects c next ctx).next_delay a (record w { draws = ds })).1 in
            (v.config.adaptive_bucket ≡ none) × (left n v.user ≡ left n w.user)) [
              | [] ↦ (h, refl)
              | d ∷ ds ↦ (h, refl)
            ];
    slept = λ n d w h. (sleep-none ctx d w.clock never, h, refl);
  }

  composed-same :
      (c : Config F V)
      → ((get_composed_pipeline c).1.max_attempts ≡ c.max_attempts)
        × ((get_composed_pipeline c).1.policy ≡ c.policy)
        × ((get_composed_pipeline c).1.adaptive_bucket ≡ c.adaptive_bucket)
  unfolding get_composed_pipeline build_default_pipeline
  composed-same c = ground arith

  -- An execution without limiters, bulkheads, breaker, chaos and bucket that no policy built, under a
  -- context that is never done: if the action fails fewer times than MaxAttempts, each time with an
  -- error that the policy retries and that does not call the retries off, and then succeeds, the
  -- execution succeeds.
  pub execute-succeeds :
      (ctx : Context) (action : DoAction F V U) (w : World F V U)
      → IsBare w.config
      → NeverDone ctx
      → IsFlaky (λ e. should_retry_err w.config.policy e) left action
      → left 0 w.user < w.config.max_attempts
      → (execute ctx (some action) none w).0 ≡ returned none
  unfolding compose retry_middleware
  execute-succeeds ctx action w bare never flaky fewer =
      let c = (get_composed_pipeline w.config).1 in
      let v = record w { config = c } in
      let (attempts, policy, bucket) = composed-same w.config in
      let next = compose (inside w.config) action in
      let loop = retry_middleware next in
      ap (λ x. x.0) (execute-default ctx action w bare.composed bare.pipeline)
      ∙ subst (λ ms. (compose ms loop ctx (first_state w.config) v).0 ≡ returned none)
          (sym (outside-bare w.config bare))
          (retry-succeeds (effects c next ctx) (λ u. u.config.adaptive_bucket ≡ none)
            (λ n u. left n u.user)
            (effects-IsTransient c next ctx never (λ st u h.
              inside-IsFlaky (λ e. should_retry_err c.policy e) left w.config action ctx st u bare
                never
                (subst (λ p. IsFlaky (λ e. should_retry_err p e) left action) (sym policy) flaky)
                h))
            c.max_attempts (first_state w.config) v (bucket ∙ bare.adaptive_bucket)
            (subst (λ m. left 0 w.user < m) (sym attempts) fewer))
