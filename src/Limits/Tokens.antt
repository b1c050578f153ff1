-- ===== src/Limits/Tokens.antt =====
-- The token buckets of adaptive_retry.go and ratelimit.go stay between empty and full.
use resile.Float.{Float, float_ℕ, ◌≼◌, FloatLaws}
use resile.Limits.Rate.{RateLimiter, refill_of, refill, take_token, acquire}
use resile.Retry.Bucket.{AdaptiveBucket, acquire_retry_token, add_success_token}
use resile.Prelude.{ℕ, inl, inr, Bool, true, false, List, [], ◌∷◌, if◌then◌else◌, Bool-cases}

module _ {F : Type 0} ⦃f : Float F⦄ (laws : FloatLaws F) where
  open laws use {
    IsFinite, refl_of_le, le_refl, le_trans, le_or_lt, zero_finite, sub_finite, sub_bounds, add_le,
    finite_between, le_of_lt, one_finite, one_positive,
  }

  -- A level of a bucket that is a number from 0 to the capacity.
  pub record IsLevel (capacity tokens : F) : Type 0 where
    pub finite : IsFinite tokens
    pub not_negative : float_ℕ 0 ≼ tokens
    pub not_over : tokens ≼ capacity

  -- Taking out what is there, and putting in with a cut at the capacity, keep the level.
  pub sub-IsLevel :
      (capacity tokens cost : F)
      → IsFinite cost
      → float_ℕ 0 ≼ cost
      → cost ≼ tokens
      → IsLevel capacity tokens
      → IsLevel capacity (f.sub tokens cost)
  sub-IsLevel capacity tokens cost fin pos_ enough v =
      let (low, high) = sub_bounds tokens cost v.finite pos_ enough in
      record {
        finite = sub_finite tokens cost v.finite fin;
        not_negative = low;
        not_over = le_trans (f.sub tokens cost) tokens capacity high v.not_over;
      }

  add-IsLevel :
      (capacity tokens more : F)
      → IsFinite capacity
      → float_ℕ 0 ≼ more
      → IsLevel capacity tokens
      → let sum = f.add tokens more in
        IsLevel capacity (if f.lt capacity sum then capacity else sum)
  add-IsLevel capacity tokens more fin pos_ v =
      let sum = f.add tokens more in
      let up : tokens ≼ sum = add_le tokens more v.finite pos_ in
      let full : float_ℕ 0 ≼ capacity =
        le_trans (float_ℕ 0) tokens capacity v.not_negative v.not_over in
      elim (Bool-cases (f.lt capacity sum)) [
        | inl over ↦
            rw over (record { finite = fin; not_negative = full; not_over = le_refl capacity fin })
        | inr fits ↦
            let below : sum ≼ capacity =
              elim (le_or_lt sum capacity (refl_of_le tokens sum up).1 (le_refl capacity fin)) [
                | inl h ↦ h
                | inr h ↦ cc
              ] in
            let low : float_ℕ 0 ≼ sum = le_trans (float_ℕ 0) tokens sum v.not_negative up in
            rw fits (record {
              finite = finite_between sum capacity fin low below;
              not_negative = low;
              not_over = below;
            })
      ]

  -- A bucket with parameters that are numbers, not negative, and a level from 0 to the capacity.
  pub record IsSound (b : AdaptiveBucket F) : Type 0 where
    pub capacity_finite : IsFinite b.max_capacity
    pub cost_finite : IsFinite b.retry_cost
    pub cost : float_ℕ 0 ≼ b.retry_cost
    pub refill : float_ℕ 0 ≼ b.success_refill
    pub level : IsLevel b.max_capacity b.tokens

  acquire-IsSound : (b : AdaptiveBucket F) → IsSound b → IsSound (acquire_retry_token b).1
  unfolding acquire_retry_token
  acquire-IsSound b v = elim (Bool-cases (f.le b.retry_cost b.tokens)) [
    | inl enough ↦ rw enough (record {
      capacity_finite = v.capacity_finite;
      cost_finite = v.cost_finite;
      cost = v.cost;
      refill = v.refill;
      level = sub-IsLevel b.max_capacity b.tokens b.retry_cost v.cost_finite v.cost enough v.level;
    })
    | inr few ↦ rw few v
  ]

  add-IsSound : (b : AdaptiveBucket F) → IsSound b → IsSound (add_success_token b)
  unfolding add_success_token
  add-IsSound b v = record {
    capacity_finite = v.capacity_finite;
    cost_finite = v.cost_finite;
    cost = v.cost;
    refill = v.refill;
    level = add-IsLevel b.max_capacity b.tokens b.success_refill v.capacity_finite v.refill v.level;
  }

  -- What executions do to a shared bucket: retries (true) and successes (false), in any order.
  abbrev pub bucket_after : List Bool → AdaptiveBucket F → AdaptiveBucket F
  bucket_after [] b = b
  bucket_after (true ∷ es) b = bucket_after es (acquire_retry_token b).1
  bucket_after (false ∷ es) b = bucket_after es (add_success_token b)

  -- A bucket whose capacity, cost and refill are finite numbers, not negative, has after any
  -- sequence of retries and successes a level that is a finite number from 0 to the capacity.
  pub bucket_after-IsSound :
      (es : List Bool) (b : AdaptiveBucket F) → IsSound b → IsSound (bucket_after es b)
  bucket_after-IsSound [] b v = v
  bucket_after-IsSound (true ∷ es) b v =
      bucket_after-IsSound es (acquire_retry_token b).1 (acquire-IsSound b v)
  bucket_after-IsSound (false ∷ es) b v =
      bucket_after-IsSound es (add_success_token b) (add-IsSound b v)

  -- A rate limiter whose limit is a finite number, with a level from 0 to the limit.
  pub record IsSteady (rl : RateLimiter F) : Type 0 where
    pub limit_finite : IsFinite rl.limit
    pub level : IsLevel rl.limit rl.tokens

  pub refill-IsSteady : (now : ℕ) (rl : RateLimiter F) → IsSteady rl → IsSteady (refill now rl)
  unfolding refill
  refill-IsSteady now rl v = elim (Bool-cases (f.lt (float_ℕ 0) (refill_of now rl))) [
    | inl some_time ↦ rw some_time (record {
      limit_finite = v.limit_finite;
      level =
          add-IsLevel rl.limit rl.tokens (refill_of now rl) v.limit_finite
            (le_of_lt (float_ℕ 0) (refill_of now rl) some_time) v.level;
    })
    | inr no_time ↦ rw no_time v
  ]

  take-IsSteady : (rl : RateLimiter F) → IsSteady rl → IsSteady (take_token rl).1
  unfolding take_token
  take-IsSteady rl v = elim (Bool-cases (f.le (float_ℕ 1) rl.tokens)) [
    | inl enough ↦ rw enough (record {
      limit_finite = v.limit_finite;
      level = sub-IsLevel rl.limit rl.tokens (float_ℕ 1) one_finite one_positive enough v.level;
    })
    | inr few ↦ rw few v
  ]

  -- Calls of Acquire at the instants of a list.
  abbrev pub limiter_after : List ℕ → RateLimiter F → RateLimiter F
  limiter_after [] rl = rl
  limiter_after (now ∷ times) rl = limiter_after times (acquire now rl).1

  -- A rate limiter whose limit is a finite number has after calls at any instants, also if the clock
  -- goes back, a number of tokens that is finite, not negative and at most the limit.
  pub limiter_after-IsSteady :
      (times : List ℕ) (rl : RateLimiter F) → IsSteady rl → IsSteady (limiter_after times rl)
  unfolding acquire
  limiter_after-IsSteady [] rl v = v
  limiter_after-IsSteady (now ∷ times) rl v =
      limiter_after-IsSteady times (acquire now rl).1
        (take-IsSteady (refill now rl) (refill-IsSteady now rl v))
