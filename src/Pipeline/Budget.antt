-- ===== src/Pipeline/Budget.antt =====
-- What a whole pipeline of retry.go does to the world, beside what one call of the action does.
use resile.Context.{Context}
use resile.Float.{Float}
use resile.Pipeline.Config.{Middleware, Config}
use resile.Pipeline.World.{World, DoAction}
use resile.Pipeline.Attempt.{acquire_from, effects, retry_middleware}
use resile.Pipeline.Compose.{compose}
use resile.Pipeline.Frame.{Quiet, IsFrame}
use resile.Pipeline.Chain.{allowed, compose-Affords}
use resile.Retry.Bucket.{AdaptiveBucket}
use resile.Retry.Budget
use resile.Retry.Budget.{IsBudget, IsPaced, retry-Reach}
use resile.Retry.Loop.{RetryState}
use resile.Prelude.{ℕ, arith, ◌*◌, refl, Option, none, some, List, [], ◌∷◌}

-- A budget of worlds, on which a quiet step is free.
pub record IsFair {F V U : Type 0} (Reach : ℕ → World F V U → World F V U → Type 0) : Type 0 where
  pub budget : IsBudget Reach
  pub free : (v w : World F V U) → Quiet v w → Reach 0 v w

module _ {F V U : Type 0} ⦃f : Float F⦄ (Reach : ℕ → World F V U → World F V U → Type 0)
    (fair : IsFair Reach) where
  token-free : (w : World F V U) (o : Option (AdaptiveBucket F)) → Reach 0 w (acquire_from w o).1
  token-free w none = fair.free w w (refl, refl, refl)
  token-free w (some b) = fair.free w (acquire_from w (some b)).1 (refl, refl, refl)

  delay-free :
      (c : Config F V) (next : DoAction F V U) (ctx : Context) (a : ℕ) (w : World F V U)
      → Reach 0 w ((effects c next ctx).next_delay a w).1
  delay-free c next ctx a w =
      elim w.draws
        as (λ ds. Reach 0 w ((effects c next ctx).next_delay a (record w { draws = ds })).1) [
          | [] ↦ fair.free w _ (refl, refl, refl)
          | n ∷ ns ↦ fair.free w _ (refl, refl, refl)
        ]

  effects-IsPaced :
      (n : ℕ) (c : Config F V) (next : DoAction F V U) (ctx : Context)
      → ((ctx : Context) (st : RetryState) (w : World F V U) → Reach n w (next ctx st w).1)
      → IsPaced Reach n (effects c next ctx)
  effects-IsPaced n c next ctx p = record {
    next = λ st w. p ctx st w;
    success = λ w. fair.free w ((effects c next ctx).add_success_token w) (refl, refl, refl);
    token = λ w. token-free w w.config.adaptive_bucket;
    delay = λ a w. delay-free c next ctx a w;
    sleep = λ d w. fair.free w ((effects c next ctx).sleep d w).1 (refl, refl, refl);
  }

  retry_middleware-Reach :
      (n : ℕ) (next : DoAction F V U)
      → ((ctx : Context) (st : RetryState) (w : World F V U) → Reach n w (next ctx st w).1)
      → (ctx : Context) (st : RetryState) (w : World F V U)
      → Reach (w.config.max_attempts * n) w (retry_middleware next ctx st w).1
  unfolding retry_middleware
  retry_middleware-Reach n next p ctx st w =
      retry-Reach Reach fair.budget n (effects w.config next ctx)
        (effects-IsPaced n w.config next ctx p) w.config.max_attempts st w

  pub fair-IsFrame : (n : ℕ) → IsFrame (λ u x. Reach n u x.1)
  fair-IsFrame n = record {
    refusal = λ v w e q. fair.budget.more 0 n v w (omega arith) (fair.free v w q);
    ahead = λ u v x q r. Budget.before Reach fair.budget n u v x.1 (fair.free u v q) r;
    after = λ u v w r h q. Budget.behind Reach fair.budget n u v w h (fair.free v w q);
    calmed = λ u v x h. h;
    replaced = λ u v g ctx e q h. h;
  }

  -- `known` says that the budget may take MaxAttempts to be m.
  pub compose-Reach :
      (m : ℕ)
      → ((n : ℕ) (v w : World F V U) → Reach (v.config.max_attempts * n) v w → Reach (m * n) v w)
      → (ms : List Middleware) (n : ℕ) (base : DoAction F V U)
      → ((ctx : Context) (st : RetryState) (w : World F V U) → Reach n w (base ctx st w).1)
      → (ctx : Context) (st : RetryState) (w : World F V U)
      → Reach (allowed m ms n) w (compose ms base ctx st w).1
  compose-Reach m known ms n base p =
      compose-Affords (λ n u x. Reach n u x.1) fair-IsFrame m
        (λ n next q ctx st w.
          known n w (retry_middleware next ctx st w).1 (retry_middleware-Reach n next q ctx st w))
        ms n base p
