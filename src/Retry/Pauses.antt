-- ===== src/Retry/Pauses.antt =====
-- What the retry loop of retry.go does between two attempts, and the rules that it follows.
use resile.Errors.{circuit_open, Err, is_sentinel, as_retry_after}
use resile.Retry.Loop.{Outcome, returned, panicked, Effects}
use resile.Retry.Trace.{Recorder, recorded}
use resile.Prelude.{
  ℕ, ◌+◌, ◌≤◌, ◌<◌, ◌≡◌, ◌⊎◌, ℤ, Bool, true, false, Option, none, some, List, [], ◌∷◌, ◌++◌,
}

-- What the loop asks of its environment: an attempt, a token, the backoff's delay for an attempt,
-- and a sleep.
pub data Act : Type 0 where
  called : ℕ → Outcome → Act
  asked : Bool → Act
  drawn : ℕ → ℤ → Act
  slept : ℤ → Option Err → Act

-- A log of these, oldest first.
abbrev pub log_acts : Recorder (List Act)
log_acts = record {
  on_next = λ st r log. log ++ called st.attempt r ∷ [];
  on_token = λ ok log. log ++ asked ok ∷ [];
  on_delay = λ n d log. log ++ drawn n d ∷ [];
  on_sleep = λ d o log. log ++ slept d o ∷ [];
}

abbrev pub timed : {W : Type 0} → Effects W → Effects (W × List Act)
timed eff = recorded eff log_acts

-- The sleep after the error, where the backoff drew d, and the errors that call all retries off.
abbrev pub Pauses : Err → ℤ → ℤ → Type 0
Pauses e d pause =
    ((as_retry_after e ≡ none) × (pause ≡ d)) ⊎ (as_retry_after e ≡ some (pause, false))

abbrev pub CallsOff : Err → Type 0
CallsOff e = (after : ℤ) × (as_retry_after e ≡ some (after, true))

module _ (retried : Err → Bool) (limit : ℕ) where
  -- The error asks for another attempt, and the limit allows it.
  abbrev pub GoesOn : ℕ → Err → Type 0
  GoesOn n e = (is_sentinel circuit_open e ≡ false) × (retried e ≡ true) × (n + 1 < limit)

  abbrev pub GivesUp : ℕ → Err → Type 0
  GivesUp n e = (is_sentinel circuit_open e ≡ true) ⊎ (retried e ≡ false) ⊎ (limit ≤ n + 1)

  -- How a run may go from attempt n on. Between two attempts one token is asked for, then the
  -- backoff for the delay of this attempt, and then there is one sleep: for the time that the error
  -- asks for, if it does, and for the backoff's delay otherwise.
  pub data Paced : ℕ → List Act → Type 0 where
    out_of_rounds : {n : ℕ} → limit ≤ n → Paced n []
    succeeded : {n : ℕ} → n < limit → Paced n (called n (returned none) ∷ [])
    crashed : {n v : ℕ} → n < limit → Paced n (called n (panicked v) ∷ [])
    gave_up :
        {n : ℕ} {e : Err} → n < limit → GivesUp n e → Paced n (called n (returned (some e)) ∷ [])
    no_token :
        {n : ℕ} {e : Err} → GoesOn n e → Paced n (called n (returned (some e)) ∷ asked false ∷ [])
    called_off :
        {n : ℕ} {e : Err} {d : ℤ}
        → GoesOn n e
        → CallsOff e
        → Paced n (called n (returned (some e)) ∷ asked true ∷ drawn n d ∷ [])
    broken_off :
        {n : ℕ} {e c : Err} {d pause : ℤ}
        → GoesOn n e
        → Pauses e d pause
        → Paced n
            (called n (returned (some e)) ∷ asked true ∷ drawn n d ∷ slept pause (some c) ∷ [])
    went_on :
        {n : ℕ} {e : Err} {d pause : ℤ} {rest : List Act}
        → GoesOn n e
        → Pauses e d pause
        → Paced (n + 1) rest
        → Paced n (called n (returned (some e)) ∷ asked true ∷ drawn n d ∷ slept pause none ∷ rest)
