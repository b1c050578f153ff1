-- ===== src/Errors.antt =====
-- Go error values: the sentinels of the repository, the error types of policy.go and retry.go, and
-- errors.Is, errors.As and errors.Join of Go's standard library on them. `nil` is `none`.
use resile.Prelude.{ℕ, ℤ, Bool, true, false, ◌||◌, Option, none, some, List, [], ◌∷◌, ◌==◌}

-- Values made by errors.New, which are equal to themselves only. `user` is one of the caller's.
pub data Sentinel : Type 0 where
  circuit_open rate_limit_exceeded bulkhead_full shed_load : Sentinel
  context_canceled deadline_exceeded : Sentinel
  user : ℕ → Sentinel

pub sentinel_code : Sentinel → ℕ
sentinel_code circuit_open = 0
sentinel_code rate_limit_exceeded = 1
sentinel_code bulkhead_full = 2
sentinel_code shed_load = 3
sentinel_code context_canceled = 4
sentinel_code deadline_exceeded = 5
sentinel_code (user n) = 6

-- `==` on sentinels.
unfoldable pub sentinel_eq : Sentinel → Sentinel → Bool
unfolding sentinel_code
sentinel_eq (user n) (user m) = n == m
sentinel_eq s t = sentinel_code s == sentinel_code t

-- `fatal` is *fatalError, `panic_error` a *PanicError, `retry_after` an error of the caller's that
-- implements RetryAfterError, `wrapped` any other error that unwraps to one error (fmt.Errorf with
-- %w), and `joined` the result of errors.Join.
mutual
  pub data Err : Type 0 where
    sentinel : Sentinel → Err
    fatal : Err → Err
    panic_error : ℕ → Err
    retry_after : ℤ → Bool → Err
    wrapped : ℕ → Err → Err
    joined : Errs → Err

  pub data Errs : Type 0 where
    nil : Errs
    cons : Err → Errs → Errs

-- errors.Is(err, target), for a sentinel as the target.
unfoldable mutual
  unfolding sentinel_eq

  pub is_sentinel : Sentinel → Err → Bool
  is_sentinel t (sentinel s) = sentinel_eq s t
  is_sentinel t (fatal e) = is_sentinel t e
  is_sentinel t (panic_error v) = false
  is_sentinel t (retry_after d c) = false
  is_sentinel t (wrapped n e) = is_sentinel t e
  is_sentinel t (joined es) = any_is_sentinel t es

  pub any_is_sentinel : Sentinel → Errs → Bool
  any_is_sentinel t nil = false
  any_is_sentinel t (cons e es) = is_sentinel t e || any_is_sentinel t es

-- errors.As(err, &f) for a *fatalError: isFatal.
unfoldable mutual
  pub is_fatal : Err → Bool
  is_fatal (sentinel s) = false
  is_fatal (fatal e) = true
  is_fatal (panic_error v) = false
  is_fatal (retry_after d c) = false
  is_fatal (wrapped n e) = is_fatal e
  is_fatal (joined es) = any_is_fatal es

  pub any_is_fatal : Errs → Bool
  any_is_fatal nil = false
  any_is_fatal (cons e es) = is_fatal e || any_is_fatal es

abbrev pub first_of_two : Option (ℤ × Bool) → Option (ℤ × Bool) → Option (ℤ × Bool)
first_of_two (some x) r = some x
first_of_two none r = r

-- errors.As(err, &retryAfter) for a RetryAfterError: the delay, and whether all retries are off.
unfoldable mutual
  pub as_retry_after : Err → Option (ℤ × Bool)
  as_retry_after (sentinel s) = none
  as_retry_after (fatal e) = as_retry_after e
  as_retry_after (panic_error v) = none
  as_retry_after (retry_after d c) = some (d, c)
  as_retry_after (wrapped n e) = as_retry_after e
  as_retry_after (joined es) = any_as_retry_after es

  pub any_as_retry_after : Errs → Option (ℤ × Bool)
  any_as_retry_after nil = none
  any_as_retry_after (cons e es) = first_of_two (as_retry_after e) (any_as_retry_after es)

abbrev pub to_errs : List Err → Errs
to_errs [] = nil
to_errs (e ∷ es) = cons e (to_errs es)

-- errors.Join(errs...), for errors that are not nil.
unfoldable pub join : List Err → Option Err
join [] = none
join (e ∷ es) = some (joined (to_errs (e ∷ es)))

-- errors.Is and FatalError where the error may be nil.
unfoldable pub is_error : Sentinel → Option Err → Bool
is_error t none = false
is_error t (some e) = is_sentinel t e

unfoldable pub fatal_error : Option Err → Option Err
fatal_error none = none
fatal_error (some e) = some (fatal e)
