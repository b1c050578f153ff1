-- ===== src/Retry/Success.antt =====
-- How a run of the retry loop of retry.go ends, beside how the calls of the action end.
use resile.Errors.{circuit_open, Err, is_sentinel, as_retry_after, join}
use resile.Retry.Loop.{
  RetryState, Outcome, returned, panicked, Effects, override, after_sleep, wait, with_token,
  on_error, on_outcome, at_attempt, attempt_once, retry_from, retry,
}
use resile.Prelude.{
  ℕ, zero, suc, ◌+◌, ◌<◌, ◌≡◌, refl, subst, sym, ℤ, Bool, true, false, Option, none, some, List, [],
  ◌∷◌, ◌++◌, inl, inr, leb, Bool-cases, arith,
}

-- `Ends` is what holds of a call's end, and `Good` of the state round it; an end with an error asks no
-- more of the state.
pub record IsEnding {W : Type 0} (Good : W → Type 0) (Ends : Outcome × W → Type 0) (eff : Effects W)
    : Type 0 where
  pub failing : (e : Err) (w : W) → Good w → Ends (returned (some e), w)
  pub good : (e : Err) (w : W) → Ends (returned (some e), w) → Good w
  pub next : (st : RetryState) (w : W) → Good w → Ends (eff.next st w)
  pub success : (w : W) → Ends (returned none, w) → Ends (returned none, eff.add_success_token w)
  pub token : (w : W) → Good w → Good (eff.acquire_retry_token w).1
  pub delay : (a : ℕ) (w : W) → Good w → Good (eff.next_delay a w).1
  pub sleep : (d : ℤ) (w : W) → Good w → Good (eff.sleep d w).1

-- errors.Join of these is an error.
abbrev Failed : List Err → Type 0
Failed errs = (e : Err) × (join errs ≡ some e)

append-Failed : (errs : List Err) (e : Err) → Failed (errs ++ e ∷ [])
unfolding join
append-Failed [] e = (_, refl)
append-Failed (x ∷ errs) e = (_, refl)

module _ {W : Type 0} (Good : W → Type 0) (Ends : Outcome × W → Type 0) (eff : Effects W)
    (p : IsEnding Good Ends eff) (limit : ℕ) where
  failed : (errs : List Err) (w : W) → Failed errs → Good w → Ends (returned (join errs), w)
  failed errs w (e, q) g = subst (λ o. Ends (returned o, w)) (sym q) (p.failing e w g)

  abbrev Lands : (RetryState → List Err → W → Outcome × W) → Type 0
  Lands rest =
      (st : RetryState) (errs : List Err) (w : W) → Failed errs → Good w → Ends (rest st errs w)

  module _ (rest : RetryState → List Err → W → Outcome × W) (lands : Lands rest) where
    after_sleep-Ends :
        (st : RetryState) (errs : List Err) (o : Option Err) (w : W)
        → Failed errs
        → Good w
        → Ends (after_sleep eff limit rest st errs (o, w))
    after_sleep-Ends st errs none w q g = lands st errs w q g
    after_sleep-Ends st errs (some e) w q g = failed (errs ++ e ∷ []) w (append-Failed errs e) g

    wait-Ends :
        (st : RetryState) (errs : List Err) (o : Option ℤ) (w : W)
        → Failed errs
        → Good w
        → Ends (wait eff limit rest st errs o w)
    wait-Ends st errs none w q g = failed errs w q g
    wait-Ends st errs (some d) w q g =
        let (o, v) = eff.sleep d w in after_sleep-Ends st errs o v q (p.sleep d w g)

    with_token-Ends :
        (st : RetryState) (errs : List Err) (e : Err) (ok : Bool) (w : W)
        → Failed errs
        → Good w
        → Ends (with_token eff limit rest st errs e (ok, w))
    with_token-Ends st errs e true w q g =
        let (d, v) = eff.next_delay st.attempt w in
        wait-Ends st errs (override (as_retry_after e) d) v q (p.delay st.attempt w g)
    with_token-Ends st errs e false w q g = failed errs w q g

    on_error-Ends :
        (st : RetryState) (errs : List Err) (e : Err) (w : W)
        → Failed errs
        → Good w
        → Ends (on_error eff limit rest st errs e w)
    unfolding on_error
    on_error-Ends st errs e w q g = elim (Bool-cases (is_sentinel circuit_open e)) [
      | inl tripped ↦ rw tripped (failed errs w q g)
      | inr shut ↦ elim (Bool-cases (eff.should_retry e)) [
        | inr no_more ↦ rw (shut, no_more) (failed errs w q g)
        | inl again ↦ elim (Bool-cases (leb limit (st.attempt + 1))) [
          | inl last ↦ rw (shut, again, last) (failed errs w q g)
          | inr next ↦
              let (ok, v) = eff.acquire_retry_token w in
              rw (shut, again, next) (with_token-Ends st errs e ok v q (p.token w g))
        ]
      ]
    ]

    on_outcome-Ends :
        (st : RetryState) (errs : List Err) (r : Outcome) (w : W)
        → Ends (r, w)
        → Ends (on_outcome eff limit rest st errs (r, w))
    on_outcome-Ends st errs (returned none) w h = p.success w h
    on_outcome-Ends st errs (returned (some e)) w h =
        on_error-Ends st (errs ++ e ∷ []) e w (append-Failed errs e) (p.good e w h)
    on_outcome-Ends st errs (panicked v) w h = h

    attempt_once-Ends :
        (start a : ℕ) (st : RetryState) (errs : List Err) (w : W)
        → Good w
        → Ends (attempt_once eff limit start a rest st errs w)
    unfolding attempt_once
    attempt_once-Ends start a st errs w g =
        let st' = at_attempt eff limit start a errs w st in
        let (r, v) = eff.next st' w in on_outcome-Ends st' errs r v (p.next st' w g)

  retry_from-Lands : (start rounds a : ℕ) → Lands (retry_from eff limit start rounds a)
  unfolding retry_from
  retry_from-Lands start zero a st errs w q g = failed errs w q g
  retry_from-Lands start (suc rounds) a st errs w q g =
      attempt_once-Ends (retry_from eff limit start rounds (a + 1))
        (retry_from-Lands start rounds (a + 1)) start a st errs w g

module _ {W : Type 0} (Good : W → Type 0) (Ends : Outcome × W → Type 0) (eff : Effects W)
    (p : IsEnding Good Ends eff) where
  -- With an attempt at least, the loop ends as a call may end.
  pub retry-Ends :
      (limit : ℕ) (st : RetryState) (w : W) → 0 < limit → Good w → Ends (retry eff limit st w)
  unfolding retry retry_from
  retry-Ends zero st w h g = absurd (omega arith)
  retry-Ends (suc n) st w h g =
      attempt_once-Ends Good Ends eff p (suc n) (retry_from eff (suc n) (eff.clock w) n (0 + 1))
        (retry_from-Lands Good Ends eff p (suc n) (eff.clock w) n (0 + 1)) (eff.clock w) 0 st [] w g
