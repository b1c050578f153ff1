-- ===== src/Tests/RetryRuns.antt =====
-- Runs of the retry loop, the retry policy and the hedged loop of retry.go.
use resile.Errors.{user, Err, sentinel, wrapped, is_sentinel, as_retry_after}
use resile.Retry.Loop.{RetryState, returned, Effects, retry}
use resile.Retry.Trace.{logged, Follows}
use resile.Retry.Pauses.{timed, Paced}
use resile.Retry.Timing.{retry-Paced}
use resile.Retry.History.{retry-Follows}
use resile.Float.{Milli, milli_float}
use resile.Retry.Backoff.{full_jitter_next}
use resile.Retry.Jitter.{Milli-Scales, full_jitter_next_lem}
use resile.Hedging
use resile.Hedging.Loop.{
  Event, result, timer, ended, receive, launch, turn, on_failure, execute_hedged,
}
use resile.Hedging.Bounds.{IsSanePhase, execute_hedged-IsSane}
use resile.Hedging.Ends.{execute_hedged-ends}
use resile.Prelude.{
  leb, if◌then◌else◌, ℕ, zero, suc, ◌≡◌, arith, pos, true, Option, none, some, List, [], ◌∷◌,
}

abbrev busy : Err
busy = wrapped 7 (sentinel (user 1))

-- An action that fails as often as the world's number says, and then succeeds.
abbrev flaky : Effects ℕ
flaky = record {
  clock = λ w. 0;
  next = λ st w. elim w [ zero ↦ (returned none, zero) | suc k ↦ (returned (some busy), k) ];
  should_retry = λ e. true;
  add_success_token = λ w. w;
  acquire_retry_token = λ w. (true, w);
  next_delay = λ n w. (pos 10, w);
  sleep = λ d w. (none, w);
}

-- The same, where the sleep after the second failure is broken off.
abbrev interrupted : Effects ℕ
interrupted = record flaky {
  sleep = λ d w. (if leb w 3 then some (sentinel (user 2)) else none, w);
}

abbrev start : RetryState
start = record {
  name = "op";
  attempt = 0;
  max_attempts = 3;
  last_error = none;
  total_duration = 0;
  next_delay = pos 0;
}

retry-Follows_example :
    Follows
      (λ e. true)
      3
      0
      []
      (retry (logged interrupted) 3 start (5, ([], []))).1.1.0
      (retry (logged interrupted) 3 start (5, ([], []))).1.1.1
      (retry (logged interrupted) 3 start (5, ([], []))).0
retry-Follows_example = retry-Follows interrupted 3 start 5

full_jitter_next_example : full_jitter_next Milli (pos 100) (pos 1000) 2 12345 ≡ pos 345
full_jitter_next_example =
    full_jitter_next_lem Milli-Scales 100 1000 2 12345 (omega arith) (omega arith) (omega arith)

-- The world of a hedged call is the number of tokens.
abbrev hedging : Hedging.Loop.Effects ℕ
hedging = record {
  acquire_retry_token = λ w. (true, w);
  add_success_token = λ w. w;
  should_retry = λ e. true;
}

-- A tick starts the second attempt; then both fail.
abbrev both_fail : List Event
both_fail = timer ∷ result (some busy) ∷ result (some busy) ∷ timer ∷ []

execute_hedged-IsSane_example : IsSanePhase 2 (execute_hedged hedging 2 both_fail 9)
unfolding turn launch receive on_failure is_sentinel as_retry_after
execute_hedged-IsSane_example =
    execute_hedged-IsSane hedging 2 both_fail 9
      (omega arith, (omega arith, (omega arith, (tt, tt))))

execute_hedged-ends_example :
    (r : Option Err) × (w : ℕ) × (execute_hedged hedging 2 both_fail 9 ≡ ended r w)
unfolding turn launch receive on_failure is_sentinel as_retry_after
execute_hedged-ends_example =
    execute_hedged-ends hedging 2 both_fail 9 (omega arith, (omega arith, (omega arith, (tt, tt))))
      (omega arith)

retry-Paced_example : Paced (λ e. true) 3 0 (retry (timed flaky) 3 start (5, [])).1.1
retry-Paced_example = retry-Paced flaky 3 start 5
