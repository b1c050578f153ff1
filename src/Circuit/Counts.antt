-- ===== src/Circuit/Counts.antt =====
-- What the buckets of the time-based window of circuit/breaker.go hold together.
use resile.Circuit.State.{Bucket, empty_bucket}
use resile.Circuit.Window.{u64, bump, sum_success, sum_failure, clear_buckets}
use resile.Prelude.{
  ℕ, zero, suc, ◌+◌, ◌<◌, ◌≡◌, refl, Bool, true, false, List, [], ◌∷◌, arith, length, get_or, set,
}

abbrev pub successes : List Bucket → ℕ
successes [] = 0
successes (u ∷ us) = u.success + successes us

abbrev pub failures_in : List Bucket → ℕ
failures_in [] = 0
failures_in (u ∷ us) = u.failure + failures_in us

pub sum_success-eq :
    (acc : ℕ) (us : List Bucket)
    → acc + successes us < 18446744073709551616
    → sum_success acc us ≡ acc + successes us
unfolding sum_success
sum_success-eq acc [] h = omega arith
sum_success-eq acc (u ∷ us) h =
    omega (arith, sum_success-eq (u64 (acc + u.success)) us (omega arith))

pub sum_failure-eq :
    (acc : ℕ) (us : List Bucket)
    → acc + failures_in us < 18446744073709551616
    → sum_failure acc us ≡ acc + failures_in us
unfolding sum_failure
sum_failure-eq acc [] h = omega arith
sum_failure-eq acc (u ∷ us) h =
    omega (arith, sum_failure-eq (u64 (acc + u.failure)) us (omega arith))

abbrev pub one_if : Bool → ℕ
one_if true = 1
one_if false = 0

abbrev pub one_unless : Bool → ℕ
one_unless true = 0
one_unless false = 1

pub successes-bump :
    (s : Bool) (i : ℕ) (us : List Bucket)
    → i < length us
    → successes us + 1 < 18446744073709551616
    → successes (set us i (bump s (get_or us i empty_bucket))) ≡ successes us + one_if s
successes-bump s i [] h k = elim h [ ]
successes-bump true zero (u ∷ us) h k = omega arith
successes-bump false zero (u ∷ us) h k = omega arith
successes-bump s (suc i) (u ∷ us) h k =
    omega (arith, successes-bump s i us (omega arith) (omega arith))

pub failures_in-bump :
    (s : Bool) (i : ℕ) (us : List Bucket)
    → i < length us
    → failures_in us + 1 < 18446744073709551616
    → failures_in (set us i (bump s (get_or us i empty_bucket))) ≡ failures_in us + one_unless s
failures_in-bump s i [] h k = elim h [ ]
failures_in-bump true zero (u ∷ us) h k = omega arith
failures_in-bump false zero (u ∷ us) h k = omega arith
failures_in-bump s (suc i) (u ∷ us) h k =
    omega (arith, failures_in-bump s i us (omega arith) (omega arith))

pub one_of_two : (s : Bool) → one_if s + one_unless s ≡ 1
one_of_two true = refl
one_of_two false = refl

pub get_or_blank :
    (us : List Bucket) (j : ℕ) → get_or (clear_buckets us) j empty_bucket ≡ empty_bucket
unfolding clear_buckets
get_or_blank [] j = refl
get_or_blank (u ∷ us) zero = refl
get_or_blank (u ∷ us) (suc j) = get_or_blank us j
