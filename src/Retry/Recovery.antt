-- ===== src/Retry/Recovery.antt =====
-- The retry loop of retry.go gets over errors that pass.
use resile.Errors.{circuit_open, Err, is_sentinel, as_retry_after}
use resile.Retry.Loop.{
  RetryState, Outcome, returned, Effects, override, on_error, at_attempt, attempt_once, retry_from,
  retry,
}
use resile.Prelude.{
  ℕ, zero, suc, ◌+◌, ◌<◌, ◌≡◌, refl, ◌∙◌, ℤ, Bool, true, false, none, some, List, [], ◌∷◌, ◌++◌,
  leb, arith,
}

-- An error after which the loop goes on: the policy retries it, and it does not call the retries off.
abbrev pub IsPassing : (Err → Bool) → Err → Type 0
IsPassing should_retry e =
    (is_sentinel circuit_open e ≡ false)
    × (should_retry e ≡ true)
    × ((d : ℤ) → (d' : ℤ) × (override (as_retry_after e) d ≡ some d'))

-- At attempt n, in a state where Holds, the action fails `left n w` times more, each time with such an
-- error, and then succeeds; tokens are granted and sleeps not broken off.
pub record IsTransient {W : Type 0} (eff : Effects W) (Holds : W → Type 0) (left : ℕ → W → ℕ)
    : Type 0 where
  pub succeeds :
      (st : RetryState) (w : W)
      → Holds w
      → left st.attempt w ≡ 0
      → (eff.next st w).0 ≡ returned none
  pub fails :
      (st : RetryState) (w : W) (k : ℕ)
      → Holds w
      → left st.attempt w ≡ suc k
      → (e : Err) × ((eff.next st w).0 ≡ returned (some e))
        × IsPassing eff.should_retry e
        × Holds (eff.next st w).1
        × (left (st.attempt + 1) (eff.next st w).1 ≡ k)
  pub granted :
      (n : ℕ) (w : W)
      → Holds w
      → ((eff.acquire_retry_token w).0 ≡ true)
        × Holds (eff.acquire_retry_token w).1
        × (left n (eff.acquire_retry_token w).1 ≡ left n w)
  pub delayed :
      (n a : ℕ) (w : W)
      → Holds w
      → Holds (eff.next_delay a w).1 × (left n (eff.next_delay a w).1 ≡ left n w)
  pub slept :
      (n : ℕ) (d : ℤ) (w : W)
      → Holds w
      → ((eff.sleep d w).0 ≡ none) × Holds (eff.sleep d w).1 × (left n (eff.sleep d w).1 ≡ left n w)

module _ {W : Type 0} (eff : Effects W) (Holds : W → Type 0) (left : ℕ → W → ℕ)
    (t : IsTransient eff Holds left) (limit : ℕ) where
  abbrev Goes : ℕ → ℕ → (RetryState → List Err → W → Outcome × W) → Type 0
  Goes n k rest =
      (st : RetryState) (errs : List Err) (w : W)
      → Holds w
      → left n w ≡ k
      → (rest st errs w).0 ≡ returned none

  on_error-Goes :
      (k : ℕ) (rest : RetryState → List Err → W → Outcome × W) (st : RetryState) (errs : List Err)
      (e : Err) (w : W)
      → Goes (st.attempt + 1) k rest
      → st.attempt + 1 < limit
      → Holds w
      → left (st.attempt + 1) w ≡ k
      → IsPassing eff.should_retry e
      → (on_error eff limit rest st errs e w).0 ≡ returned none
  unfolding on_error
  on_error-Goes k rest st errs e w goes h holds at (shut, again, after) =
      let n = st.attempt + 1 in
      let w1 = (eff.acquire_retry_token w).1 in
      let w2 = (eff.next_delay st.attempt w1).1 in
      let (d, on) = after (eff.next_delay st.attempt w1).0 in
      let w3 = (eff.sleep d w2).1 in
      let (granted, holds1, same1) = t.granted n w holds in
      let (holds2, same2) = t.delayed n st.attempt w1 holds1 in
      let (slept, holds3, same3) = t.slept n d w2 holds2 in
      rw (shut, again, lt-leb limit (st.attempt + 1) h, granted, on, slept)
        (goes st errs w3 holds3 (same3 ∙ same2 ∙ same1 ∙ at))
    where
      lt-leb : (a b : ℕ) → b < a → leb a b ≡ false
      lt-leb a b q = ground arith

  retry_from-Goes :
      (start rounds n k : ℕ)
      → n + rounds ≡ limit
      → k < rounds
      → Goes n k (retry_from eff limit start rounds n)
  unfolding retry_from attempt_once
  retry_from-Goes start zero n k h m st errs w holds at = elim m [ ]
  retry_from-Goes start (suc rounds) n zero h m st errs w holds at =
      let st' = at_attempt eff limit start n errs w st in rw (t.succeeds st' w holds at)
  retry_from-Goes start (suc rounds) n (suc k) h m st errs w holds at =
      let st' = at_attempt eff limit start n errs w st in
      let (e, failed, passing, holds', fewer) = t.fails st' w k holds at in
      rw failed (
        on_error-Goes k (retry_from eff limit start rounds (n + 1)) st' (errs ++ e ∷ []) e
          (eff.next st' w).1
          (λ st2 errs2 w2 holds2 at2.
            retry_from-Goes start rounds (n + 1) k (omega arith) (omega arith) st2 errs2 w2 holds2
              at2)
          (omega arith) holds' fewer passing)

  -- If the action fails fewer times than MaxAttempts, each time with an error that may be retried,
  -- then succeeds, and neither the bucket nor the context stops the retries, the loop succeeds.
  pub retry-succeeds :
      (st : RetryState) (w : W)
      → Holds w
      → left 0 w < limit
      → (retry eff limit st w).0 ≡ returned none
  unfolding retry
  retry-succeeds st w holds h =
      retry_from-Goes (eff.clock w) limit 0 (left 0 w) (omega arith) h st [] w holds refl
