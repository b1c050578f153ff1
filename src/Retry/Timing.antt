-- ===== src/Retry/Timing.antt =====
-- The pauses of a whole run of the retry loop of retry.go, for every environment.
use resile.Errors.{circuit_open, Err, is_sentinel, as_retry_after, join}
use resile.Retry.Loop.{
  RetryState, Outcome, returned, panicked, Effects, override, after_sleep, wait, with_token,
  on_error, on_outcome, at_attempt, attempt_once, retry_from, retry,
}
use resile.Retry.Pauses.{
  Act, called, asked, drawn, slept, timed, GoesOn, GivesUp, Pauses, CallsOff, Paced, out_of_rounds,
  succeeded, crashed, gave_up, no_token, called_off, broken_off, went_on,
}
use mathlib.Core.List.{append-nil, append_assoc}
use resile.Prelude.{
  ℕ, zero, suc, ◌+◌, ◌<◌, ◌≡◌, refl, sym, ◌∙◌, subst, inl, inr, ℤ, Bool, true, false, Option, none,
  some, List, [], ◌∷◌, ◌++◌, leb, arith, Bool-cases,
}

-- What `override` makes of the backoff's delay.
overridden :
    (e : Err) (o : Option (ℤ × Bool)) (d pause : ℤ)
    → as_retry_after e ≡ o
    → override o d ≡ some pause
    → Pauses e d pause
overridden e none d pause q p = inl (q, cc)
overridden e (some (after, false)) d pause q p = inr (cc)
overridden e (some (after, true)) d pause q p = absurd cc

off :
    (e : Err) (o : Option (ℤ × Bool)) (d : ℤ)
    → as_retry_after e ≡ o
    → override o d ≡ none
    → CallsOff e
off e none d q p = absurd cc
off e (some (after, false)) d q p = absurd cc
off e (some (after, true)) d q p = (after, q)

module _ {W : Type 0} (eff : Effects W) (limit : ℕ) where
  -- The run ends with a log that is the one before and acts for which R holds.
  abbrev Adds : (List Act → Type 0) → List Act → Outcome × (W × List Act) → Type 0
  Adds R log (out, (w, log')) = (l : List Act) × (log' ≡ log ++ l) × R l

  nothing_added :
      (R : List Act → Type 0) (log : List Act) (out : Outcome) (w : W)
      → R []
      → Adds R log (out, (w, log))
  nothing_added R log out w r = ([], sym (append-nil log), r)

  one_added :
      (R : List Act → Type 0) (log : List Act) (a : Act) (x : Outcome × (W × List Act))
      → Adds (λ l. R (a ∷ l)) (log ++ a ∷ []) x
      → Adds R log x
  one_added R log a x (l, eq, r) = (a ∷ l, eq ∙ append_assoc log (a ∷ []) l, r)

  abbrev Follows : ℕ → List Act → Type 0
  Follows = Paced eff.should_retry limit

  abbrev Rest : Type 0
  Rest = RetryState → List Err → W × List Act → Outcome × (W × List Act)

  module _ (n : ℕ) (rest : Rest) (errs : List Err) (e : Err)
      (goes : GoesOn eff.should_retry limit n e)
      (ih : (st : RetryState) (errs : List Err) (w : W) (log : List Act)
        → Adds (Follows (n + 1)) log (rest st errs (w, log))) where
    after_sleep-Adds :
        (st : RetryState) (d pause : ℤ) (o : Option Err) (w : W) (log : List Act)
        → override (as_retry_after e) d ≡ some pause
        → Adds
            (λ l.
              Follows n (called n (returned (some e)) ∷ asked true ∷ drawn n d ∷ slept pause o ∷ l))
            log
            (after_sleep (timed eff) limit rest st errs (o, (w, log)))
    after_sleep-Adds st d pause none w log p =
        let (l, eq, follows) = ih st errs w log in
        (l, eq, went_on goes (overridden e (as_retry_after e) d pause refl p) follows)
    after_sleep-Adds st d pause (some c) w log p =
        nothing_added _ log (returned (join (errs ++ c ∷ []))) w
          (broken_off goes (overridden e (as_retry_after e) d pause refl p))

    wait-Adds :
        (st : RetryState) (d : ℤ) (o : Option ℤ) (w : W) (log : List Act)
        → override (as_retry_after e) d ≡ o
        → Adds
            (λ l. Follows n (called n (returned (some e)) ∷ asked true ∷ drawn n d ∷ l))
            log
            (wait (timed eff) limit rest st errs o (w, log))
    wait-Adds st d none w log p =
        nothing_added _ log (returned (join errs)) w
          (called_off goes (off e (as_retry_after e) d refl p))
    wait-Adds st d (some pause) w log p =
        let (o, v) = eff.sleep pause w in
        one_added _ log (slept pause o)
          (after_sleep (timed eff) limit rest st errs (o, (v, log ++ slept pause o ∷ [])))
          (after_sleep-Adds st d pause o v (log ++ slept pause o ∷ []) p)

    with_token-Adds :
        (st : RetryState) (ok : Bool) (w : W) (log : List Act)
        → st.attempt ≡ n
        → Adds
            (λ l. Follows n (called n (returned (some e)) ∷ asked ok ∷ l))
            log
            (with_token (timed eff) limit rest st errs e (ok, (w, log)))
    with_token-Adds st false w log at = nothing_added _ log (returned (join errs)) w (no_token goes)
    with_token-Adds st true w log at =
        let (d, v) = eff.next_delay st.attempt w in
        let log' = log ++ drawn st.attempt d ∷ [] in
        let o = override (as_retry_after e) d in
        one_added (λ l. Follows n (called n (returned (some e)) ∷ asked true ∷ l)) log
          (drawn st.attempt d) (wait (timed eff) limit rest st errs o (v, log'))
          (subst
            (λ m.
              Adds (λ l. Follows n (called n (returned (some e)) ∷ asked true ∷ drawn m d ∷ l)) log'
                (wait (timed eff) limit rest st errs o (v, log')))
            (sym at) (wait-Adds st d o v log' refl))

  on_error-Adds :
      (n : ℕ) (rest : Rest) (st : RetryState) (errs : List Err) (e : Err) (w : W) (log : List Act)
      → n < limit
      → st.attempt ≡ n
      → ((st : RetryState) (errs : List Err) (w : W) (log : List Act)
          → Adds (Follows (n + 1)) log (rest st errs (w, log)))
      → Adds
          (λ l. Follows n (called n (returned (some e)) ∷ l))
          log
          (on_error (timed eff) limit rest st errs e (w, log))
  unfolding on_error
  on_error-Adds n rest st errs e w log h at ih = elim (Bool-cases (is_sentinel circuit_open e)) [
    | inl tripped ↦ rw tripped (stop (inl tripped))
    | inr shut ↦ elim (Bool-cases (eff.should_retry e)) [
      | inr no_more ↦ rw (shut, no_more) (stop (inr (inl no_more)))
      | inl again ↦ elim (Bool-cases (leb limit (st.attempt + 1))) [
        | inl last ↦ rw (shut, again, last) (stop (inr (inr (ground (arith, at, last)))))
        | inr more ↦
            let (ok, v) = eff.acquire_retry_token w in
            let goes : GoesOn eff.should_retry limit n e =
              (shut, again, ground (arith, at, more)) in
            rw (shut, again, more)
              (one_added (λ l. Follows n (called n (returned (some e)) ∷ l)) log (asked ok)
                (with_token (timed eff) limit rest st errs e (ok, (v, log ++ asked ok ∷ [])))
                (with_token-Adds n rest errs e goes ih st ok v (log ++ asked ok ∷ []) at))
      ]
    ]
  ]
    where
      stop :
          GivesUp eff.should_retry limit n e
          → Adds
              (λ l. Follows n (called n (returned (some e)) ∷ l))
              log
              (returned (join errs), (w, log))
      stop g =
          nothing_added (λ l. Follows n (called n (returned (some e)) ∷ l)) log
            (returned (join errs)) w (gave_up h g)

  on_outcome-Adds :
      (n : ℕ) (rest : Rest) (st : RetryState) (errs : List Err) (r : Outcome) (w : W)
      (log : List Act)
      → n < limit
      → st.attempt ≡ n
      → ((st : RetryState) (errs : List Err) (w : W) (log : List Act)
          → Adds (Follows (n + 1)) log (rest st errs (w, log)))
      → Adds
          (λ l. Follows n (called n r ∷ l))
          log
          (on_outcome (timed eff) limit rest st errs (r, (w, log)))
  on_outcome-Adds n rest st errs (returned none) w log h at ih =
      nothing_added _ log (returned none) (eff.add_success_token w) (succeeded h)
  on_outcome-Adds n rest st errs (panicked v) w log h at ih =
      nothing_added _ log (panicked v) w (crashed h)
  on_outcome-Adds n rest st errs (returned (some e)) w log h at ih =
      on_error-Adds n rest st (errs ++ e ∷ []) e w log h at ih

  retry_from-Adds :
      (start rounds n : ℕ) (st : RetryState) (errs : List Err) (w : W) (log : List Act)
      → n + rounds ≡ limit
      → Adds (Follows n) log (retry_from (timed eff) limit start rounds n st errs (w, log))
  unfolding retry_from attempt_once
  retry_from-Adds start zero n st errs w log h =
      nothing_added (Follows n) log (returned (join errs)) w (out_of_rounds (omega arith))
  retry_from-Adds start (suc rounds) n st errs w log h =
      let st' = at_attempt (timed eff) limit start n errs (w, log) st in
      let (r, v) = eff.next st' w in
      let log' = log ++ called n r ∷ [] in
      let rest = retry_from (timed eff) limit start rounds (n + 1) in
      one_added (Follows n) log (called n r)
        (on_outcome (timed eff) limit rest st' errs (r, (v, log')))
        (on_outcome-Adds n rest st' errs r v log' (omega arith) refl (λ st2 errs2 w2 log2.
          retry_from-Adds start rounds (n + 1) st2 errs2 w2 log2 (omega arith)))

  -- Whatever the environment does, a run of the loop goes on after a failed attempt just if the error
  -- is no open circuit, the policy retries it and MaxAttempts allows one more; then it asks once for
  -- a token, once the backoff for the delay of this attempt's number, and sleeps once, for the time
  -- that the error asks for if it does, else for that delay, before the next attempt; it stops
  -- without a token, after an error that calls the retries off, and after a sleep that is broken off.
  pub retry-Paced :
      (st : RetryState) (w : W)
      → Paced eff.should_retry limit 0 (retry (timed eff) limit st (w, [])).1.1
  unfolding retry
  retry-Paced st w =
      let (l, eq, follows) = retry_from-Adds (eff.clock w) limit 0 st [] w [] (omega arith) in
      subst (Paced eff.should_retry limit 0) (sym eq) follows
