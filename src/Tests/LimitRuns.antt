-- ===== src/Tests/LimitRuns.antt =====
-- Runs of the bulkheads and of the token buckets.
use resile.Context.{Priority, low, standard, background, with_priority, get_priority, ctx_err}
use resile.Errors.{bulkhead_full, sentinel}
use resile.Float.{float_ℕ, ◌≼◌, milli_float, Milli, to_milli, Milli-FloatLaws, Milli-IsFinite}
use resile.Limits.Bulkhead.{
  Bulkhead, new_bulkhead, enter, leave, refused, PriorityBulkhead, new_priority_bulkhead,
  enter_priority, threshold_of,
}
use resile.Limits.Occupancy.{Steps, done, more, goes_in, comes_out, running-le-capacity}
use resile.Limits.Rate.{RateLimiter, new_rate_limiter, refill}
use resile.Limits.Adaptive
use resile.Limits.Adaptive.{AdaptiveLimiter}
use resile.Limits.Shares
use resile.Limits.Shares.{Milli-ShareLaws}
use resile.Limits.Crowd
use resile.Limits.Crowd.{Crowd}
use resile.Limits.Inside.{empty, inside-le-limit}
use resile.Limits.Burst.{FillsUp, admitted, admitted-FillsUp, Milli-CountLaws}
use resile.Limits.Floor.{update-floor}
use resile.Limits.Tokens.{
  IsSound, IsSteady, bucket_after, bucket_after-IsSound, limiter_after, limiter_after-IsSteady,
}
use resile.Retry.Bucket.{AdaptiveBucket, new_adaptive_bucket}
use resile.Prelude.{
  List, arith, ◌+ℤ◌, pos, ◌≤ℤ◌, ◌≤◌, ◌≡◌, ◌↔◌, refl, pos, true, false, none, [], ◌∷◌,
}

abbrev one_held : Bulkhead
one_held = record { capacity = 2; held = 1 }

-- Two actions enter a bulkhead of capacity 2, and one of them leaves.
two_and_one :
    Steps
      (record { semaphore = new_bulkhead 2; running = 0 })
      (record { semaphore = one_held; running = 1 })
unfolding new_bulkhead enter leave
two_and_one =
    more (more (more done (goes_in true none refl)) (goes_in true none refl)) (comes_out 1 refl)

running_example :
    (1 ≤ 2)
    × (one_held.held ≡ 1)
    × (((enter true none one_held).0 ≡ refused (sentinel bulkhead_full)) ↔ (one_held.held ≡ 2))
running_example =
    running-le-capacity 2 (record { semaphore = one_held; running = 1 }) true two_and_one

-- Of four slots a low priority may have half: two go in, a third is shed, and a standard one goes in.
abbrev shares : List (Priority × Milli)
shares = (low, to_milli 500) ∷ []

abbrev three_held : PriorityBulkhead Milli
three_held = record { semaphore = record { capacity = 4; held = 3 }; thresholds = shares }

shared_run :
    Shares.Steps
      (record { bulkhead = new_priority_bulkhead 4 shares; running = [] })
      (record { bulkhead = three_held; running = standard ∷ low ∷ low ∷ [] })
unfolding new_priority_bulkhead enter_priority with_priority get_priority ctx_err
shared_run =
    Shares.more
      (Shares.more
        (Shares.more
          (Shares.more Shares.done (Shares.goes_in true (with_priority background low) 5 refl))
          (Shares.goes_in true (with_priority background low) 5 refl))
        (Shares.stays_out true (with_priority background low) 6 refl))
      (Shares.goes_in true background 7 refl)

number-Below_example :
    (3 ≤ 4)
    × (three_held.semaphore.held ≡ 3)
    × ((p : Priority)
        → Shares.Below 4
            (threshold_of (float_ℕ 1) p shares)
            (Shares.number p (standard ∷ low ∷ low ∷ [])))
number-Below_example =
    Shares.number-Below Milli-FloatLaws Milli-ShareLaws 4 (omega arith) shares
      (record { bulkhead = three_held; running = standard ∷ low ∷ low ∷ [] }) shared_run

abbrev bucket : AdaptiveBucket Milli
bucket = new_adaptive_bucket (to_milli 10000) (to_milli 4000) (to_milli 1500)

bucket_after_example :
    IsSound Milli-FloatLaws (bucket_after Milli-FloatLaws (true ∷ true ∷ true ∷ false ∷ []) bucket)
unfolding new_adaptive_bucket
bucket_after_example =
    bucket_after-IsSound Milli-FloatLaws (true ∷ true ∷ true ∷ false ∷ []) bucket (record {
      capacity_finite = Milli-IsFinite _;
      cost_finite = Milli-IsFinite _;
      cost = refl;
      refill = refl;
      level = record { finite = Milli-IsFinite _; not_negative = refl; not_over = refl };
    })

abbrev limiter : RateLimiter Milli
limiter = new_rate_limiter (to_milli 2000) (pos 100) 1000

limiter_after_example :
    IsSteady Milli-FloatLaws
      (limiter_after Milli-FloatLaws (1000 ∷ 1001 ∷ 1050 ∷ 1000 ∷ []) limiter)
unfolding new_rate_limiter
limiter_after_example =
    limiter_after-IsSteady Milli-FloatLaws (1000 ∷ 1001 ∷ 1050 ∷ 1000 ∷ []) limiter (record {
      limit_finite = Milli-IsFinite _;
      level = record { finite = Milli-IsFinite _; not_negative = refl; not_over = refl };
    })

admitted-FillsUp_example :
    FillsUp (admitted 1050 5 limiter) 5 (refill 1050 limiter).tokens
    × (float_ℕ (admitted 1050 5 limiter) ≼ to_milli 2000)
unfolding new_rate_limiter
admitted-FillsUp_example =
    admitted-FillsUp Milli-FloatLaws Milli-CountLaws 1050 5 limiter (omega arith) (record {
      limit_finite = Milli-IsFinite _;
      level = record { finite = Milli-IsFinite _; not_negative = refl; not_over = refl };
    })

abbrev adaptive : AdaptiveLimiter Milli
adaptive = record {
  current_concurrency = pos 3;
  max_concurrency = pos 1;
  min_baseline_rtt = pos 100;
  rtt_ewma = pos 100;
  min_concurrency = pos 1;
  limit_scaling = to_milli 800;
  threshold = to_milli 1500;
  alpha = to_milli 100;
  last_decay_update = 0;
  decay_interval = pos 60000;
  prev_max_concurrency = pos 1;
  health_ch = none;
}

update-floor_example : pos 1 ≤ℤ (Adaptive.update (pos 9000) 500 adaptive).max_concurrency
update-floor_example =
    update-floor Milli-FloatLaws (pos 9000) 500 0 adaptive refl refl (omega arith) refl

-- Two calls arrive at a new limiter, one of them goes in and returns.
abbrev after_two : Crowd Milli
after_two = record {
  limiter =
      Adaptive.update (pos 5) 7
        (Adaptive.add_current (pos 1) (Adaptive.add_current (pos 1) (empty {F = Milli} 0).limiter));
  arriving = pos 2 ∷ [];
  inside = 0;
  leaving = 1;
}

two_calls : Crowd.Steps (empty {F = Milli} 0) after_two
unfolding Adaptive.new_adaptive_limiter Adaptive.i32 ◌+ℤ◌
two_calls =
    Crowd.more
      (Crowd.more (Crowd.more (Crowd.more Crowd.done Crowd.arrives) Crowd.arrives)
        (Crowd.goes_in (pos 2 ∷ []) (pos 1) [] refl refl))
      (Crowd.returns 0 (pos 5) 7 refl)

inside_example : (after_two.limiter.current_concurrency ≡ pos 2) × (0 ≤ 10)
unfolding two_calls Adaptive.new_adaptive_limiter Adaptive.update
inside_example =
    inside-le-limit 0 10 two_calls (omega arith)
      (((((omega arith, omega arith), omega arith), omega arith), omega arith))
