-- ===== src/Retry/Loop.antt =====
-- The retry loop of retry.go (retryMiddleware), over an interface of what it calls.
use resile.Errors.{circuit_open, Err, is_sentinel, as_retry_after, join}
use resile.Prelude.{
  ℕ, zero, suc, ◌+◌, ◌-◌, ℤ, Bool, true, false, not, Option, none, some, List, [], ◌∷◌, ◌++◌,
  String, leb, if◌then◌else◌,
}

-- telemetry.go. The actions that the struct carries are an argument of the pipeline instead.
pub record RetryState : Type 0 where
  pub name : String
  pub attempt : ℕ
  pub max_attempts : ℕ
  pub last_error : Option Err
  pub total_duration : ℕ
  pub next_delay : ℤ

-- How a call of Go code ends: it returns an error, which may be nil, or it panics with a value.
pub data Outcome : Type 0 where
  returned : Option Err → Outcome
  panicked : ℕ → Outcome

-- What the loop calls. W is the state of everything: the clock, the shared components, the action.
pub record Effects (W : Type 0) : Type 0 where
  pub clock : W → ℕ
  pub next : RetryState → W → Outcome × W
  pub should_retry : Err → Bool
  pub add_success_token : W → W
  -- Whether a retry may go on; true where no bucket is configured.
  pub acquire_retry_token : W → Bool × W
  pub next_delay : ℕ → W → ℤ × W
  pub sleep : ℤ → W → Option Err × W

abbrev pub last? : List Err → Option Err
last? [] = none
last? (e ∷ []) = some e
last? (e ∷ d ∷ es) = last? (d ∷ es)

abbrev pub or_last : Option Err → Option Err → Option Err
or_last none old = old
or_last (some e) old = some e

-- The delay before the next attempt, or `none` if the error calls all retries off.
abbrev pub override : Option (ℤ × Bool) → ℤ → Option ℤ
override none d = some d
override (some (after, cancel)) d = if cancel then none else some after

module _ {W : Type 0} (eff : Effects W) (limit : ℕ) where
  abbrev pub Continuation : Type 0
  Continuation = RetryState → List Err → W → Outcome × W

  abbrev pub after_sleep : Continuation → RetryState → List Err → Option Err × W → Outcome × W
  after_sleep rest st errs (none, w) = rest st errs w
  after_sleep rest st errs (some e, w) = (returned (join (errs ++ e ∷ [])), w)

  abbrev pub wait : Continuation → RetryState → List Err → Option ℤ → W → Outcome × W
  wait rest st errs none w = (returned (join errs), w)
  wait rest st errs (some d) w = after_sleep rest st errs (eff.sleep d w)

  abbrev pub delayed : Continuation → RetryState → List Err → Err → ℤ × W → Outcome × W
  delayed rest st errs err (d, w) = wait rest st errs (override (as_retry_after err) d) w

  abbrev pub with_token : Continuation → RetryState → List Err → Err → Bool × W → Outcome × W
  with_token rest st errs err (true, w) = delayed rest st errs err (eff.next_delay st.attempt w)
  with_token rest st errs err (false, w) = (returned (join errs), w)

  -- The loop's body behind the call of `next`; `errs` holds the new error already.
  unfoldable pub on_error : Continuation → RetryState → List Err → Err → W → Outcome × W
  on_error rest st errs err w =
      if is_sentinel circuit_open err
      then (returned (join errs), w)
      else if not (eff.should_retry err)
      then (returned (join errs), w)
      else if leb limit (st.attempt + 1)
      then (returned (join errs), w)
      else with_token rest st errs err (eff.acquire_retry_token w)

  abbrev pub on_outcome : Continuation → RetryState → List Err → Outcome × W → Outcome × W
  on_outcome rest st errs (returned none, w) = (returned none, eff.add_success_token w)
  on_outcome rest st errs (returned (some err), w) = on_error rest st (errs ++ err ∷ []) err w
  on_outcome rest st errs (panicked v, w) = (panicked v, w)

  -- `state` as the loop sets it before an attempt.
  abbrev pub at_attempt : ℕ → ℕ → List Err → W → RetryState → RetryState
  at_attempt start attempt errs w st = record st {
    attempt = attempt;
    last_error = or_last (last? errs) st.last_error;
    total_duration = eff.clock w - start;
  }

  unfoldable pub attempt_once : ℕ → ℕ → Continuation → RetryState → List Err → W → Outcome × W
  attempt_once start attempt rest st errs w =
      let st' = at_attempt start attempt errs w st in on_outcome rest st' errs (eff.next st' w)

  -- The loop, with the rounds that are left.
  unfoldable pub retry_from : ℕ → ℕ → ℕ → RetryState → List Err → W → Outcome × W
  retry_from start zero attempt st errs w = (returned (join errs), w)
  retry_from start (suc rounds) attempt st errs w =
      attempt_once start attempt (retry_from start rounds (attempt + 1)) st errs w

  unfoldable pub retry : RetryState → W → Outcome × W
  retry st w = retry_from (eff.clock w) limit 0 st [] w
