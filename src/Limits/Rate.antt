-- ===== src/Limits/Rate.antt =====
-- ratelimit.go: a token bucket that time refills.
use resile.Float.{Float, float_ℕ}
use resile.Prelude.{ℕ, ℤ, sub_ℕ, Bool, true, false, if◌then◌else◌}

pub record RateLimiter (F : Type 0) : Type 0 where
  pub limit : F
  pub tokens : F
  pub interval : ℤ
  pub last_refill_at : ℕ

unfoldable pub new_rate_limiter : {F : Type 0} → F → ℤ → ℕ → RateLimiter F
new_rate_limiter limit interval now = record {
  limit = limit;
  tokens = limit;
  interval = interval;
  last_refill_at = now;
}

module _ {F : Type 0} ⦃f : Float F⦄ where
  abbrev pub refill_of : ℕ → RateLimiter F → F
  refill_of now rl =
      f.mul (f.div (f.of_int (sub_ℕ now rl.last_refill_at)) (f.of_int rl.interval)) rl.limit

  unfoldable pub refill : ℕ → RateLimiter F → RateLimiter F
  refill now rl =
      let tokens = f.add rl.tokens (refill_of now rl) in
      if f.lt (float_ℕ 0) (refill_of now rl)
      then record rl {
        tokens = if f.lt rl.limit tokens then rl.limit else tokens;
        last_refill_at = now;
      }
      else rl

  unfoldable pub take_token : RateLimiter F → Bool × RateLimiter F
  take_token rl =
      if f.le (float_ℕ 1) rl.tokens
      then (true, record rl { tokens = f.sub rl.tokens (float_ℕ 1) })
      else (false, rl)

  unfoldable pub acquire : ℕ → RateLimiter F → Bool × RateLimiter F
  unfolding refill take_token
  acquire now rl = take_token (refill now rl)
