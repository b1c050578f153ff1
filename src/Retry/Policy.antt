-- ===== src/Retry/Policy.antt =====
-- The retry policy of policy.go: which errors are retried.
use resile.Errors.{Sentinel, context_canceled, deadline_exceeded, Err, is_sentinel, is_fatal}
use resile.Prelude.{
  ◌≡◌, ◌↔◌, ◌⊎◌, Bool, true, false, ◌||◌, Option, none, some, arith, if◌then◌else◌,
}

pub record RetryPolicy : Type 0 where
  pub retry_if : Option Sentinel
  pub retry_if_func : Option (Err → Bool)

abbrev pub no_policy : RetryPolicy
no_policy = record { retry_if = none; retry_if_func = none }

abbrev matches_target : Option Sentinel → Err → Bool
matches_target none e = false
matches_target (some t) e = is_sentinel t e

abbrev matches_func : Option (Err → Bool) → Err → Bool
matches_func none e = false
matches_func (some f) e = f e

abbrev is_unset : RetryPolicy → Bool
is_unset p = elim p.retry_if [
  | none ↦ elim p.retry_if_func [ none ↦ true | some f ↦ false ]
  | some t ↦ false
]

-- `shouldRetry` for an error that is not nil.
unfoldable pub should_retry_err : RetryPolicy → Err → Bool
should_retry_err p e =
    if is_fatal e
    then false
    else if is_sentinel context_canceled e || is_sentinel deadline_exceeded e
    then false
    else if is_unset p
    then true
    else if matches_target p.retry_if e
    then true
    else if matches_func p.retry_if_func e
    then true
    else false

unfoldable pub should_retry : RetryPolicy → Option Err → Bool
unfolding should_retry_err
should_retry p none = false
should_retry p (some e) = should_retry_err p e

abbrev Selects : RetryPolicy → Err → Type 0
Selects p e =
    ((p.retry_if ≡ none) × (p.retry_if_func ≡ none))
    ⊎ ((t : Sentinel) × (p.retry_if ≡ some t) × (is_sentinel t e ≡ true))
    ⊎ ((f : Err → Bool) × (p.retry_if_func ≡ some f) × (f e ≡ true))

-- An error is retried just if nothing in its tree is marked fatal, it is no cancellation and no
-- exceeded deadline of a context, and the policy names no target and no test, or the error matches
-- the target, or it passes the test.
should_retry_lem :
    (p : RetryPolicy) (e : Err)
    → (should_retry p (some e) ≡ true) ↔ (
        (is_fatal e ≡ false)
        × (is_sentinel context_canceled e ≡ false)
        × (is_sentinel deadline_exceeded e ≡ false)
        × Selects p e)
unfolding should_retry
should_retry_lem p e = (λ h. ground arith, λ h. ground arith)
