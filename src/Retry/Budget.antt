-- ===== src/Retry/Budget.antt =====
-- What a run of the retry loop of retry.go does to the state, beside what one call of the action does.
use resile.Errors.{circuit_open, Err, is_sentinel, as_retry_after}
use resile.Retry.Loop.{
  RetryState, Outcome, returned, panicked, Effects, override, after_sleep, wait, with_token,
  on_error, on_outcome, at_attempt, attempt_once, retry_from, retry,
}
use resile.Prelude.{
  ℕ, zero, suc, ◌+◌, ◌*◌, ◌≤◌, ◌≡◌, subst, ℤ, Bool, true, false, Option, none, some, List, [], ◌∷◌,
  ◌++◌, inl, inr, leb, Bool-cases, arith,
}

-- `Reach k w w'`: from w the state w' can be reached on a budget of k.
pub record IsBudget {W : Type 0} (Reach : ℕ → W → W → Type 0) : Type 0 where
  pub still : (w : W) → Reach 0 w w
  pub join : (j k : ℕ) (u v w : W) → Reach j u v → Reach k v w → Reach (j + k) u w
  pub more : (j k : ℕ) (u v : W) → j ≤ k → Reach j u v → Reach k u v

-- The budget n pays for a call of the action, and all else that the loop calls is free.
pub record IsPaced {W : Type 0} (Reach : ℕ → W → W → Type 0) (n : ℕ) (eff : Effects W)
    : Type 0 where
  pub next : (st : RetryState) (w : W) → Reach n w (eff.next st w).1
  pub success : (w : W) → Reach 0 w (eff.add_success_token w)
  pub token : (w : W) → Reach 0 w (eff.acquire_retry_token w).1
  pub delay : (a : ℕ) (w : W) → Reach 0 w (eff.next_delay a w).1
  pub sleep : (d : ℤ) (w : W) → Reach 0 w (eff.sleep d w).1

module _ {W : Type 0} (Reach : ℕ → W → W → Type 0) (b : IsBudget Reach) where
  open b use {still, join, more}

  -- A free step before, or behind, what a budget pays for.
  pub before : (k : ℕ) (u v w : W) → Reach 0 u v → Reach k v w → Reach k u w
  before k u v w free r = subst (λ j. Reach j u w) (omega arith) (join 0 k u v w free r)

  pub behind : (k : ℕ) (u v w : W) → Reach k u v → Reach 0 v w → Reach k u w
  behind k u v w r free = subst (λ j. Reach j u w) (omega arith) (join k 0 u v w r free)

  pub idle : (k : ℕ) (w : W) → Reach k w w
  idle k w = more 0 k w w (omega arith) (still w)

  module _ (n : ℕ) (eff : Effects W) (p : IsPaced Reach n eff) (limit : ℕ) where
    abbrev Within : ℕ → (RetryState → List Err → W → Outcome × W) → Type 0
    Within k rest = (st : RetryState) (errs : List Err) (w : W) → Reach k w (rest st errs w).1

    module _ (k : ℕ) (rest : RetryState → List Err → W → Outcome × W) (within : Within k rest) where
      after_sleep-Reach :
          (st : RetryState) (errs : List Err) (o : Option Err) (w : W)
          → Reach k w (after_sleep eff limit rest st errs (o, w)).1
      after_sleep-Reach st errs none w = within st errs w
      after_sleep-Reach st errs (some e) w = idle k w

      wait-Reach :
          (st : RetryState) (errs : List Err) (o : Option ℤ) (w : W)
          → Reach k w (wait eff limit rest st errs o w).1
      wait-Reach st errs none w = idle k w
      wait-Reach st errs (some d) w =
          let (o, v) = eff.sleep d w in
          before k w v (after_sleep eff limit rest st errs (o, v)).1 (p.sleep d w)
            (after_sleep-Reach st errs o v)

      with_token-Reach :
          (st : RetryState) (errs : List Err) (e : Err) (ok : Bool) (w : W)
          → Reach k w (with_token eff limit rest st errs e (ok, w)).1
      with_token-Reach st errs e true w =
          let (d, v) = eff.next_delay st.attempt w in
          let after = override (as_retry_after e) d in
          before k w v (wait eff limit rest st errs after v).1 (p.delay st.attempt w)
            (wait-Reach st errs after v)
      with_token-Reach st errs e false w = idle k w

      on_error-Reach :
          (st : RetryState) (errs : List Err) (e : Err) (w : W)
          → Reach k w (on_error eff limit rest st errs e w).1
      unfolding on_error
      on_error-Reach st errs e w = elim (Bool-cases (is_sentinel circuit_open e)) [
        | inl tripped ↦ rw tripped (idle k w)
        | inr shut ↦ elim (Bool-cases (eff.should_retry e)) [
          | inr no_more ↦ rw (shut, no_more) (idle k w)
          | inl again ↦ elim (Bool-cases (leb limit (st.attempt + 1))) [
            | inl last ↦ rw (shut, again, last) (idle k w)
            | inr next ↦
                let (ok, v) = eff.acquire_retry_token w in
                rw (shut, again, next)
                  (before k w v (with_token eff limit rest st errs e (ok, v)).1 (p.token w)
                    (with_token-Reach st errs e ok v))
          ]
        ]
      ]

      on_outcome-Reach :
          (st : RetryState) (errs : List Err) (r : Outcome) (w : W)
          → Reach k w (on_outcome eff limit rest st errs (r, w)).1
      on_outcome-Reach st errs (returned none) w =
          before k w (eff.add_success_token w) (eff.add_success_token w) (p.success w)
            (idle k (eff.add_success_token w))
      on_outcome-Reach st errs (returned (some e)) w = on_error-Reach st (errs ++ e ∷ []) e w
      on_outcome-Reach st errs (panicked v) w = idle k w

    retry_from-Reach :
        (start rounds a : ℕ) → Within (rounds * n) (retry_from eff limit start rounds a)
    unfolding retry_from attempt_once
    retry_from-Reach start zero a st errs w = idle (0 * n) w
    retry_from-Reach start (suc rounds) a st errs w =
        let st' = at_attempt eff limit start a errs w st in
        let (r, v) = eff.next st' w in
        let rest = retry_from eff limit start rounds (a + 1) in
        subst (λ j. Reach j w (on_outcome eff limit rest st' errs (r, v)).1) (step rounds)
          (join n (rounds * n) w v (on_outcome eff limit rest st' errs (r, v)).1 (p.next st' w) (
            on_outcome-Reach (rounds * n) rest (retry_from-Reach start rounds (a + 1)) st' errs r
              v))
      where
        step : (r : ℕ) → n + r * n ≡ suc r * n
        step r = grind arith

    pub retry-Reach : (st : RetryState) (w : W) → Reach (limit * n) w (retry eff limit st w).1
    unfolding retry
    retry-Reach st w = retry_from-Reach (eff.clock w) limit 0 st [] w
