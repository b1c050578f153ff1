-- ===== src/Pipeline/Flaky.antt =====
-- Attempts that fail some times more and then succeed, through the middlewares of retry.go.
use resile.Context.{Context}
use resile.Errors.{Err}
use resile.Float.{Float}
use resile.Pipeline.Config.{Middleware, timeout, instrumenter, panic_recovery}
use resile.Pipeline.World.{World, DoAction, tell, before_attempt}
use resile.Pipeline.Attempt.{apply}
use resile.Pipeline.Middleware.{
  timeout_middleware, instrumenter_middleware, panic_recovery_middleware, through_instrumenter,
  after_attempt_of, recovered,
}
use resile.Pipeline.Compose.{compose, only_if}
use resile.Pipeline.Order.{compose-append}
use resile.Retry.Loop.{RetryState, Outcome, returned, panicked}
use resile.Retry.Recovery.{IsPassing}
use resile.Prelude.{
  ℕ, zero, suc, ◌+◌, ◌≡◌, sym, subst, ℤ, Bool, true, false, Option, none, some, List, [], ◌∷◌, ◌++◌,
}

-- At attempt n the action fails `left n u` times more, where u is the caller's state.
module _ {F V U : Type 0} (should_retry : Err → Bool) (left : ℕ → U → ℕ) where
  -- The end of an attempt with number n, where k failures were left before it.
  abbrev pub Passes : ℕ → ℕ → Outcome × World F V U → Type 0
  Passes n zero (returned none, w) = Unit {0}
  Passes n (suc k) (returned (some e), w) =
      IsPassing should_retry e × (w.config.adaptive_bucket ≡ none) × (left (n + 1) w.user ≡ k)
  Passes n k x = ⊥

  abbrev pub IsFlaky : DoAction F V U → Type 0
  IsFlaky act =
      (ctx : Context) (st : RetryState) (w : World F V U)
      → w.config.adaptive_bucket ≡ none
      → Passes st.attempt (left st.attempt w.user) (act ctx st w)

  told-Passes :
      (n k : ℕ) (st : RetryState) (x : Outcome × World F V U)
      → Passes n k x
      → Passes n k (after_attempt_of st x)
  told-Passes n zero st (returned none, w) h = h
  told-Passes n (suc k) st (returned (some e), w) h = h
  told-Passes n zero st (returned (some e), w) h = absurd h
  told-Passes n (suc k) st (returned none, w) h = absurd h
  told-Passes n zero st (panicked x, w) h = absurd h
  told-Passes n (suc k) st (panicked x, w) h = absurd h

  recovered-Passes : (n k : ℕ) (x : Outcome × World F V U) → Passes n k x → Passes n k (recovered x)
  recovered-Passes n zero (returned none, w) h = h
  recovered-Passes n (suc k) (returned (some e), w) h = h
  recovered-Passes n zero (returned (some e), w) h = absurd h
  recovered-Passes n (suc k) (returned none, w) h = absurd h
  recovered-Passes n zero (panicked x, w) h = absurd h
  recovered-Passes n (suc k) (panicked x, w) h = absurd h

  instrumenter-IsFlaky :
      (next : DoAction F V U) → IsFlaky next → IsFlaky (instrumenter_middleware next)
  unfolding instrumenter_middleware
  instrumenter-IsFlaky next flaky ctx st w h = through w.config.instrumenter
    where
      through :
          (o : Option (Context → RetryState → Context))
          → Passes st.attempt (left st.attempt w.user) (through_instrumenter next ctx st w o)
      through none = flaky ctx st w h
      through (some before) =
          let v = tell (before_attempt st) w in
          told-Passes st.attempt (left st.attempt w.user) st (next (before ctx st) st v)
            (flaky (before ctx st) st v h)

module _ (F V : Type 0) {U : Type 0} ⦃f : Float F⦄ (should_retry : Err → Bool)
    (left : ℕ → U → ℕ) where
  -- Middlewares inside which an attempt may fail as often.
  abbrev pub Lets : List Middleware → Type 0
  Lets ms =
      (next : DoAction F V U)
      → IsFlaky should_retry left next
      → IsFlaky should_retry left (compose ms next)

  pub append-Lets : (ms ns : List Middleware) → Lets ms → Lets ns → Lets (ms ++ ns)
  append-Lets ms ns p q next flaky =
      subst (IsFlaky should_retry left) (sym (compose-append ms ns next))
        (p (compose ns next) (q next flaky))

  pub maybe : (b : Bool) (m : Middleware) → Lets (m ∷ []) → Lets (only_if b m)
  unfolding compose
  maybe true m p next flaky = p next flaky
  maybe false m p next flaky = flaky

  pub timeout-Lets : (d : ℤ) → Lets (timeout d ∷ [])
  unfolding compose apply timeout_middleware
  timeout-Lets d next flaky ctx st w h = flaky _ st w h

  pub instrumenter-Lets : Lets (instrumenter ∷ [])
  unfolding compose apply
  instrumenter-Lets = instrumenter-IsFlaky should_retry left

  pub recovery-Lets : Lets (panic_recovery ∷ [])
  unfolding compose apply panic_recovery_middleware
  recovery-Lets next flaky ctx st w h =
      recovered-Passes should_retry left st.attempt (left st.attempt w.user) (next ctx st w)
        (flaky ctx st w h)

  pub nothing : Lets []
  unfolding compose
  nothing next flaky = flaky
