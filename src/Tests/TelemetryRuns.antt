-- ===== src/Tests/TelemetryRuns.antt =====
-- Runs of the retry loop under the instrumenter of telemetry/resileotel/otel.go.
use resile.Errors.{user, sentinel}
use resile.Retry.Loop.{RetryState, returned, Effects, retry}
use resile.Retry.Trace.{logged}
use resile.Telemetry.Otel.{OtelApi, OtelInstrumenter}
use resile.Telemetry.Counts.{Changes, IsMetered, observed, retry-counted}
use resile.Prelude.{ℕ, ◌+◌, ◌-◌, refl, pos, true, none, some, [], length, arith}

-- The backend keeps the counter and the number of spans; contexts and spans are spans' numbers.
abbrev backend : OtelApi ℕ ℕ ℕ ℕ (ℕ × ℕ)
backend = record {
  start = λ t c n l a. (a.1, a.1, (a.0, a.1 + 1));
  span_from_context = λ c. c;
  add = λ k c n l a. (a.0 + n, a.1);
  record_error = λ s e a. a;
  set_status = λ s c v a. a;
  set_attributes = λ s l a. a;
  end_span = λ s a. a;
}

backend-IsMetered : IsMetered backend (λ a. a.0) (λ a. a.1)
backend-IsMetered = record {
  start = λ t c n l a. (omega arith, refl);
  add = λ k c n l a. (refl, omega arith);
  record_error = λ s e a. (omega arith, omega arith);
  set_status = λ s c v a. (omega arith, omega arith);
  set_attributes = λ s l a. (omega arith, omega arith);
  end_span = λ s a. (omega arith, omega arith);
}

abbrev instrumenter : OtelInstrumenter ℕ ℕ
instrumenter = record { tracer = 0; counter = 0 }

-- An action that always fails.
abbrev failing : Effects ℕ
failing = record {
  clock = λ w. w;
  next = λ st w. (returned (some (sentinel (user 1))), w);
  should_retry = λ e. true;
  add_success_token = λ w. w;
  acquire_retry_token = λ w. (true, w);
  next_delay = λ n w. (pos 0, w);
  sleep = λ d w. (none, w);
}

abbrev first : RetryState
first = record {
  name = "";
  attempt = 0;
  max_attempts = 3;
  last_error = none;
  total_duration = 0;
  next_delay = pos 0;
}

retry-counted_example :
    let calls = (retry (logged failing) 3 first (0, ([], []))).1.1.0 in
    Changes
      (λ a. a.0)
      (λ a. a.1)
      (length calls - 1)
      (length calls)
      (7, 0)
      (observed backend instrumenter (λ a. a.0) (λ a. a.1) backend-IsMetered 0 calls (7, 0))
retry-counted_example =
    retry-counted backend instrumenter (λ a. a.0) (λ a. a.1) backend-IsMetered failing 3 first 0 0
      (7, 0)
