-- ===== src/Retry/History.antt =====
-- What a whole run of the retry loop of retry.go calls, and what it returns, for every environment.
use resile.Errors.{circuit_open, Err, is_sentinel, as_retry_after, join}
use resile.Retry.Loop.{
  RetryState, Outcome, returned, panicked, Effects, last?, or_last, override, after_sleep, wait,
  with_token, on_error, on_outcome, at_attempt, attempt_once, retry_from, retry,
}
use mathlib.Core.List.{append-nil, append_assoc}
use resile.Prelude.{
  ℕ, zero, suc, ◌+◌, ◌≤◌, ◌<◌, ◌≡◌, refl, sym, ap, subst, ◌∙◌, ◌⊎◌, inl, inr, ℤ, Bool, true, false,
  Option, none, some, List, [], ◌∷◌, ◌++◌, length, leb, arith, Bool-cases,
}
use resile.Retry.Trace.{Entry, Log, of_sleep, logged, Ends, Follows}

last?-or :
    (errs : List Err) (old : Option Err) → (errs ≡ []) ⊎ (or_last (last? errs) old ≡ last? errs)
last?-or [] old = inl refl
last?-or (e ∷ []) old = inr refl
last?-or (e ∷ d ∷ es) old = elim (last?-or (d ∷ es) old) [ inl h ↦ cc | inr h ↦ inr h ]

-- After an error the loop stops, or it asks for a token: only if the error says so.
on_error_cases :
    {W : Type 0} (eff : Effects W) (limit : ℕ) (P : Outcome × W → Type 0)
    (rest : RetryState → List Err → W → Outcome × W) (st : RetryState) (errs : List Err) (e : Err)
    (w : W)
    → P (returned (join errs), w)
    → (is_sentinel circuit_open e ≡ false
        → eff.should_retry e ≡ true
        → P (with_token eff limit rest st errs e (eff.acquire_retry_token w)))
    → P (on_error eff limit rest st errs e w)
unfolding on_error
on_error_cases eff limit P rest st errs e w stop go =
    elim (Bool-cases (is_sentinel circuit_open e)) [
      | inl tripped ↦ rw tripped stop
      | inr shut ↦ elim (Bool-cases (eff.should_retry e)) [
        | inr no_more ↦ rw (shut, no_more) stop
        | inl again ↦ elim (Bool-cases (leb limit (st.attempt + 1))) [
          | inl last ↦ rw (shut, again, last) stop
          | inr inner ↦ rw (shut, again, inner) (go shut again)
        ]
      ]
    ]

module _ {W : Type 0} (eff : Effects W) (limit : ℕ) where
  -- What a run adds to the log that it began with, and what it returned.
  abbrev Logs : ℕ → List Err → Log → Outcome × (W × Log) → Type 0
  Logs n errs (calls, broken) (out, (w, (calls', broken'))) =
      (l : List Entry) × (b : List Err) × (calls' ≡ calls ++ l)
      × (broken' ≡ broken ++ b)
      × Follows eff.should_retry limit n errs l b out

  abbrev AfterError : ℕ → List Err → Err → Log → Outcome × (W × Log) → Type 0
  AfterError n errs e (calls, broken) (out, (w, (calls', broken'))) =
      (l : List Entry) × (b : List Err) × (calls' ≡ calls ++ l)
      × (broken' ≡ broken ++ b)
      × (Ends eff.should_retry limit errs l b out
          ⊎ ((is_sentinel circuit_open e ≡ false)
              × (eff.should_retry e ≡ true)
              × Follows eff.should_retry limit (n + 1) errs l b out))

  abbrev Rest : Type 0
  Rest = RetryState → List Err → W × Log → Outcome × (W × Log)

  stopped :
      (n : ℕ) (errs : List Err) (e : Err) (calls : List Entry) (broken : List Err) (w : W)
      → AfterError n errs e (calls, broken) (returned (join errs), (w, (calls, broken)))
  stopped n errs e calls broken w = (
    [],
    [],
    sym (append-nil calls),
    sym (append-nil broken),
    inl (refl, inl refl, ap (λ l. returned (join l)) (sym (append-nil errs))),
  )

  module _ (n : ℕ) (rest : Rest) (errs : List Err) (e : Err) (calls : List Entry)
      (broken : List Err)
      (ih : (st : RetryState) (w : W)
        → Logs (n + 1) errs (calls, broken) (rest st errs (w, (calls, broken))))
      (shut : is_sentinel circuit_open e ≡ false) (again : eff.should_retry e ≡ true) where
    after_sleep-lem :
        (st : RetryState) (o : Option Err) (w : W)
        → AfterError n errs e
            (calls, broken)
            (after_sleep (logged eff) limit rest st errs (o, (w, (calls, broken ++ of_sleep o))))
    after_sleep-lem st none w =
        subst (λ k. AfterError n errs e (calls, broken) (rest st errs (w, (calls, k))))
          (sym (append-nil broken))
          (let (l, b, eq, eq', follows) = ih st w in (l, b, eq, eq', inr (shut, again, follows)))
    after_sleep-lem st (some c) w =
        ([], c ∷ [], sym (append-nil calls), refl, inl (refl, inr (c, refl), refl))

    wait-lem :
        (st : RetryState) (d : Option ℤ) (w : W)
        → AfterError n errs e
            (calls, broken)
            (wait (logged eff) limit rest st errs d (w, (calls, broken)))
    wait-lem st none w = stopped n errs e calls broken w
    wait-lem st (some d) w = after_sleep-lem st (eff.sleep d w).0 (eff.sleep d w).1

    with_token-lem :
        (st : RetryState) (ok : Bool) (w : W)
        → AfterError n errs e
            (calls, broken)
            (with_token (logged eff) limit rest st errs e (ok, (w, (calls, broken))))
    with_token-lem st true w =
        let (d, w') = eff.next_delay st.attempt w in wait-lem st (override (as_retry_after e) d) w'
    with_token-lem st false w = stopped n errs e calls broken w

  on_error-AfterError :
      (n : ℕ) (rest : Rest) (st : RetryState) (errs : List Err) (e : Err) (w : W)
      (calls : List Entry) (broken : List Err)
      → ((st : RetryState) (w : W)
          → Logs (n + 1) errs (calls, broken) (rest st errs (w, (calls, broken))))
      → AfterError n errs e
          (calls, broken)
          (on_error (logged eff) limit rest st errs e (w, (calls, broken)))
  on_error-AfterError n rest st errs e w calls broken ih =
      on_error_cases (logged eff) limit (AfterError n errs e (calls, broken)) rest st errs e
        (w, (calls, broken)) (stopped n errs e calls broken w)
        (λ shut again.
          with_token-lem n rest errs e calls broken ih shut again st (eff.acquire_retry_token w).0
            (eff.acquire_retry_token w).1)

  on_outcome-Logs :
      (n : ℕ) (rest : Rest) (st : RetryState) (errs : List Err) (r : Outcome) (w : W)
      (calls : List Entry) (broken : List Err)
      → n < limit
      → st.attempt ≡ n
      → (errs ≡ []) ⊎ (st.last_error ≡ last? errs)
      → ((st2 : RetryState) (errs2 : List Err) (w2 : W) (calls2 : List Entry) (broken2 : List Err)
          → Logs (n + 1) errs2 (calls2, broken2) (rest st2 errs2 (w2, (calls2, broken2))))
      → Logs n errs
          (calls, broken)
          (on_outcome (logged eff) limit rest st errs (r, (w, (calls ++ (st, r) ∷ [], broken))))
  on_outcome-Logs n rest st errs (returned none) w calls broken h at known ih = (
    (st, returned none) ∷ [],
    [],
    refl,
    sym (append-nil broken),
    (h, at, refl, refl, refl, known),
  )
  on_outcome-Logs n rest st errs (panicked v) w calls broken h at known ih =
      ((st, panicked v) ∷ [], [], refl, sym (append-nil broken), (h, at, refl, refl, refl, known))
  on_outcome-Logs n rest st errs (returned (some e)) w calls broken h at known ih =
      let entry : Entry = (st, returned (some e)) in
      let (l, b, eq, eq', after) =
        on_error-AfterError n rest st (errs ++ e ∷ []) e w (calls ++ entry ∷ []) broken
          (λ st2 w2. ih st2 (errs ++ e ∷ []) w2 (calls ++ entry ∷ []) broken) in
      (entry ∷ l, b, eq ∙ append_assoc calls (entry ∷ []) l, eq', (h, at, known, after))

  retry_from-Logs :
      (start rounds n : ℕ) (st : RetryState) (errs : List Err) (w : W) (calls : List Entry)
      (broken : List Err)
      → n + rounds ≡ limit
      → Logs n errs
          (calls, broken)
          (retry_from (logged eff) limit start rounds n st errs (w, (calls, broken)))
  unfolding retry_from attempt_once
  retry_from-Logs start zero n st errs w calls broken h =
      ([], [], sym (append-nil calls), sym (append-nil broken), (refl, refl, omega arith))
  retry_from-Logs start (suc rounds) n st errs w calls broken h =
      let st' = at_attempt (logged eff) limit start n errs (w, (calls, broken)) st in
      on_outcome-Logs n (retry_from (logged eff) limit start rounds (n + 1)) st' errs
        (eff.next st' w).0 (eff.next st' w).1 calls broken (omega arith) refl
        (last?-or errs st.last_error)
        (λ st2 errs2 w2 calls2 broken2.
          retry_from-Logs start rounds (n + 1) st2 errs2 w2 calls2 broken2 (omega arith))

  -- Whatever the environment does, the calls of a run of the loop, from attempt 0 on, and the errors
  -- of its sleeps are ones that the rules allow: the calls are numbered 0, 1, 2, ... below
  -- MaxAttempts and each is given the error of the one before it; a success or a panic ends the run
  -- as it is; after an error there is another call only if the error is no open circuit and the
  -- policy retries it; and otherwise the result joins all the errors of the run in order and, just
  -- if a sleep was broken off, behind them the error that this sleep gave; at most one sleep of the
  -- run is broken off, and none before a success or a panic.
  pub retry-Follows :
      (st : RetryState) (w : W)
      → let (out, (w', (calls, broken))) = retry (logged eff) limit st (w, ([], [])) in
        Follows eff.should_retry limit 0 [] calls broken out
  unfolding retry
  retry-Follows st w =
      let (l, b, eq, eq', follows) =
        retry_from-Logs (eff.clock w) limit 0 st [] w [] [] (omega arith) in
      rw (eq, eq') follows

  Follows-length :
      (n : ℕ) (errs : List Err) (l : List Entry) (broken : List Err) (out : Outcome)
      → n ≤ limit
      → Follows eff.should_retry limit n errs l broken out
      → n + length l ≤ limit
  Follows-length n errs [] broken out h v = omega arith
  Follows-length n errs ((st, returned none) ∷ rest) broken out h v = omega (arith, ap length v.3)
  Follows-length n errs ((st, panicked x) ∷ rest) broken out h v = omega (arith, ap length v.3)
  Follows-length n errs ((st, returned (some e)) ∷ rest) broken out h v = elim v.3 [
    | inl ends ↦ omega (arith, ap length ends.0)
    | inr goes ↦
        omega (arith, Follows-length (n + 1) (errs ++ e ∷ []) rest broken out (omega arith) goes.2)
  ]

  Follows-nonempty :
      (errs : List Err) (l : List Entry) (broken : List Err) (out : Outcome)
      → Follows eff.should_retry limit 0 errs l broken out
      → 0 < limit
      → 0 < length l
  Follows-nonempty errs [] broken out v h = absurd (omega (arith, v.2))
  Follows-nonempty errs (x ∷ rest) broken out v h = omega arith

  -- The loop calls the action at most MaxAttempts times, and at least once if that is not 0.
  retry-attempts :
      (st : RetryState) (w : W)
      → let calls = (retry (logged eff) limit st (w, ([], []))).1.1.0 in
        (length calls ≤ limit) × (0 < limit → 0 < length calls)
  retry-attempts st w =
      let (out, (w', (calls, broken))) = retry (logged eff) limit st (w, ([], [])) in
      let follows : Follows eff.should_retry limit 0 [] calls broken out = retry-Follows st w in
      (
        omega (arith, Follows-length 0 [] calls broken out (omega arith) follows),
        Follows-nonempty [] calls broken out follows,
      )
