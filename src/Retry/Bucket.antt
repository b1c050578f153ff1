-- ===== src/Retry/Bucket.antt =====
-- adaptive_retry.go: a token bucket that retries draw on and successes refill.
use resile.Float.{Float, float_ℕ}
use resile.Prelude.{Bool, true, false, if◌then◌else◌}

pub record AdaptiveBucket (F : Type 0) : Type 0 where
  pub tokens : F
  pub max_capacity : F
  pub retry_cost : F
  pub success_refill : F

unfoldable pub new_adaptive_bucket : {F : Type 0} → F → F → F → AdaptiveBucket F
new_adaptive_bucket capacity cost refill = record {
  tokens = capacity;
  max_capacity = capacity;
  retry_cost = cost;
  success_refill = refill;
}

module _ {F : Type 0} ⦃f : Float F⦄ where
  unfoldable pub default_adaptive_bucket : AdaptiveBucket F
  unfolding new_adaptive_bucket
  default_adaptive_bucket = new_adaptive_bucket (float_ℕ 500) (float_ℕ 5) (float_ℕ 1)

  unfoldable pub acquire_retry_token : AdaptiveBucket F → Bool × AdaptiveBucket F
  acquire_retry_token b =
      if f.le b.retry_cost b.tokens
      then (true, record b { tokens = f.sub b.tokens b.retry_cost })
      else (false, b)

  unfoldable pub add_success_token : AdaptiveBucket F → AdaptiveBucket F
  add_success_token b =
      let tokens = f.add b.tokens b.success_refill in
      record b { tokens = if f.lt b.max_capacity tokens then b.max_capacity else tokens }
