-- ===== src/Retry/Trace.antt =====
-- What is written down of a run of the retry loop of retry.go, and the rules that it follows.
use resile.Errors.{circuit_open, Err, is_sentinel, join}
use resile.Retry.Loop.{RetryState, Outcome, returned, panicked, Effects, last?}
use resile.Prelude.{
  ℕ, ◌+◌, ◌≤◌, ◌<◌, ◌≡◌, ◌⊎◌, ℤ, Bool, true, false, Option, none, some, List, [], ◌∷◌, ◌++◌,
}

-- One call of `next`: the state that it was given, and how it ended.
abbrev pub Entry : Type 0
Entry = RetryState × Outcome

-- Something that is kept up to date with each attempt, token, delay and sleep of a run.
pub record Recorder (L : Type 0) : Type 0 where
  pub on_next : RetryState → Outcome → L → L
  pub on_token : Bool → L → L
  pub on_delay : ℕ → ℤ → L → L
  pub on_sleep : ℤ → Option Err → L → L

-- The environment, beside which it is kept.
module _ {W L : Type 0} (eff : Effects W) (rec : Recorder L) where
  abbrev beside : {A : Type 0} → (A → L → L) → L → A × W → A × (W × L)
  beside change l (a, w) = (a, (w, change a l))

  abbrev pub recorded : Effects (W × L)
  recorded = record {
    clock = λ (w, l). eff.clock w;
    next = λ st (w, l). beside (rec.on_next st) l (eff.next st w);
    should_retry = eff.should_retry;
    add_success_token = λ (w, l). (eff.add_success_token w, l);
    acquire_retry_token = λ (w, l). beside rec.on_token l (eff.acquire_retry_token w);
    next_delay = λ n (w, l). beside (rec.on_delay n) l (eff.next_delay n w);
    sleep = λ d (w, l). beside (rec.on_sleep d) l (eff.sleep d w);
  }

-- The calls of `next` and the errors of the sleeps that were broken off, oldest first.
abbrev pub Log : Type 0
Log = List Entry × List Err

abbrev pub of_sleep : Option Err → List Err
of_sleep none = []
of_sleep (some c) = c ∷ []

abbrev log_calls : Recorder Log
log_calls = record {
  on_next = λ st r (calls, broken). (calls ++ (st, r) ∷ [], broken);
  on_token = λ ok log. log;
  on_delay = λ n d log. log;
  on_sleep = λ d o (calls, broken). (calls, broken ++ of_sleep o);
}

abbrev pub logged : {W : Type 0} → Effects W → Effects (W × Log)
logged eff = recorded eff log_calls

-- How a run that starts at attempt n, with the errors so far, may go, with the errors of its sleeps:
-- every call gets its number and the last error; success and a panic end the run as what they are; a
-- failure is followed by another call only if it is no open circuit, the policy retries it and the
-- limit allows one more; otherwise the errors, in order, are joined, behind them the error of the
-- sleep that was broken off, if one was, and nothing else. No other sleep is broken off.
module _ (retried : Err → Bool) (limit : ℕ) where
  abbrev pub Ends : List Err → List Entry → List Err → Outcome → Type 0
  Ends errs rest broken out =
      (rest ≡ [])
      × ((broken ≡ []) ⊎ ((c : Err) × (broken ≡ c ∷ [])))
      × (out ≡ returned (join (errs ++ broken)))

  abbrev pub Follows : ℕ → List Err → List Entry → List Err → Outcome → Type 0
  Follows n errs [] broken out = (out ≡ returned (join errs)) × (broken ≡ []) × (limit ≤ n)
  Follows n errs ((st, returned none) ∷ rest) broken out =
      (n < limit)
      × (st.attempt ≡ n)
      × (out ≡ returned none)
      × (rest ≡ [])
      × (broken ≡ [])
      × ((errs ≡ []) ⊎ (st.last_error ≡ last? errs))
  Follows n errs ((st, panicked v) ∷ rest) broken out =
      (n < limit)
      × (st.attempt ≡ n)
      × (out ≡ panicked v)
      × (rest ≡ [])
      × (broken ≡ [])
      × ((errs ≡ []) ⊎ (st.last_error ≡ last? errs))
  Follows n errs ((st, returned (some e)) ∷ rest) broken out =
      (n < limit)
      × (st.attempt ≡ n)
      × ((errs ≡ []) ⊎ (st.last_error ≡ last? errs))
      × (Ends (errs ++ e ∷ []) rest broken out
          ⊎ ((is_sentinel circuit_open e ≡ false)
              × (retried e ≡ true)
              × Follows (n + 1) (errs ++ e ∷ []) rest broken out))
