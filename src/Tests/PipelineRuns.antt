-- ===== src/Tests/PipelineRuns.antt =====
-- Runs of the pipeline of retry.go and policy.go.
use resile.Context.{background}
use resile.Errors.{Err, user, sentinel, is_sentinel, is_fatal, as_retry_after}
use resile.Float.{milli_float, Milli}
use resile.Pipeline.Config.{Config, value_fallback, fallback, retry, timeout, default_config}
use resile.Pipeline.World.{World, DoAction}
use resile.Pipeline.Attempt.{retry_middleware}
use resile.Pipeline.Choices
use resile.Pipeline.Choices.{Choice, options_of}
use resile.Pipeline.Policies.{composed_as, execute-new_policy}
use resile.Pipeline.Middleware.{fallback_middleware, timeout_middleware}
use resile.Pipeline.Flaky.{Passes}
use resile.Pipeline.Recovery.{IsBare, execute-succeeds}
use resile.Retry.Policy.{no_policy, should_retry_err}
use resile.Pipeline.Options.{new_policy}
use resile.Pipeline.Compose.{first_state, terminal_action, execute}
use resile.Pipeline.Entry.{Result, gives, ValueAction, do_state, policy_do}
use resile.Pipeline.Calls.{execute-calls_default}
use resile.Pipeline.Success.{Sound, do_state-Sound, policy_do-Sound}
use resile.Hedging.Attempt.{IsCalm, run_attempt, run_attempt-IsCalm}
use resile.Retry.Loop.{Outcome, returned, panicked}
use resile.Pipeline.Options.{new}
use resile.Prelude.{ℕ, zero, suc, ◌+◌, ◌≤◌, arith, ◌≡◌, refl, true, none, some, List, [], ◌∷◌, pos}

abbrev oops : Err
oops = sentinel (user 1)

abbrev world : Config Milli ℕ → World Milli ℕ (ℕ × ℕ)
world c = record {
  config = c;
  clock = 1000;
  draws = [];
  floats = [];
  events = [];
  takes_slot = true;
  user = (0, 0);
}

abbrev plain : Config Milli ℕ
plain = default_config

abbrev failing : DoAction Milli ℕ (ℕ × ℕ)
failing ctx st w = (returned (some oops), w)

abbrev with_default_value : World Milli ℕ (ℕ × ℕ)
with_default_value = world (record plain {
  fallback = some (value_fallback (λ ctx e. (42, none)));
  composed = some (fallback ∷ []);
})

abbrev panicking : DoAction Milli ℕ (ℕ × ℕ)
panicking ctx st w = (panicked 13, w)

abbrev recovering : World Milli ℕ (ℕ × ℕ)
recovering = world (record plain { recover_panics = true })

run_attempt_example : IsCalm (run_attempt background 900 1 (some panicking) none recovering).0
run_attempt_example = run_attempt-IsCalm background 900 1 (some panicking) none recovering refl

-- The first number of the caller's state counts the calls.
abbrev counting : DoAction Milli ℕ (ℕ × ℕ)
counting ctx st w = (returned (some oops), record w { user = (w.user.0 + 1, w.user.1) })

execute-calls_default_example :
    (execute background (some counting) none (world plain)).1.user.0 ≤ 0 + 5
unfolding default_config
execute-calls_default_example =
    execute-calls_default (λ u. u.0) background counting (world plain)
      (λ c s v. (omega arith, refl)) refl refl

abbrev answer : ℕ → Result ℕ
answer zero = gives 7 (some oops)
answer (suc n) = gives 42 none

abbrev answering : ValueAction Milli ℕ ℕ
answering ctx st w = (answer st.attempt, w)

answer-Sound : (n : ℕ) → Sound (λ v. v ≡ 42) (answer n)
answer-Sound zero = tt
answer-Sound (suc n) = refl

do_state_example : Sound (λ v. v ≡ 42) (do_state [] 0 background answering with_default_value).0
unfolding new default_config
do_state_example =
    do_state-Sound (λ v. v ≡ 42) [] 0 background answering with_default_value (omega arith)
      (λ c s v. (refl, refl)) (λ c s v. answer-Sound s.attempt) tt

-- A fallback round three attempts, each with a time-out.
abbrev choices : List (Choice Milli ℕ)
choices =
    Choices.name "op"
    ∷ Choices.fallback (λ ctx e. (42, none))
    ∷ Choices.retry 3
    ∷ Choices.timeout (pos 50)
    ∷ []

abbrev policy : Config Milli ℕ
policy = new_policy (options_of choices)

execute-new_policy_example :
    execute background (some failing) none (world policy)
    ≡ fallback_middleware
        (retry_middleware (timeout_middleware (pos 50) failing))
        background
        (first_state policy)
        (record (world plain) {
          config = composed_as (fallback ∷ retry ∷ timeout (pos 50) ∷ []) policy;
        })
unfolding terminal_action
execute-new_policy_example =
    execute-new_policy choices background (some failing) none (world policy) refl

-- An action that always fails, with the number 3 as its value.
abbrev hopeless : ValueAction Milli ℕ ℕ
hopeless ctx st w = (gives 3 (some oops), w)

-- The fallback's 42 does not come, and no other value.
policy_do-Sound_example : Sound (λ v. ⊥) (policy_do background hopeless (world policy)).0
unfolding new_policy default_config resile.Pipeline.Options.with_timeout
    resile.Pipeline.Options.with_retry resile.Pipeline.Options.with_fallback
    resile.Pipeline.Options.with_name
policy_do-Sound_example =
    policy_do-Sound (λ v. ⊥) background hopeless (world policy) (omega arith)
      (λ c s v. (refl, refl)) (λ c s v. tt) tt

-- The first number of the caller's state says how often the action fails.
abbrev fails_until : ℕ → World Milli ℕ (ℕ × ℕ) → Outcome × World Milli ℕ (ℕ × ℕ)
fails_until zero w = (returned none, w)
fails_until (suc k) w = (returned (some oops), record w { user = (k, w.user.1) })

abbrev healing : DoAction Milli ℕ (ℕ × ℕ)
healing ctx st w = fails_until w.user.0 w

healing-Passes :
    (n k : ℕ) (w : World Milli ℕ (ℕ × ℕ))
    → w.config.adaptive_bucket ≡ none
    → Passes (λ e. should_retry_err no_policy e) (λ n u. u.0) n k (fails_until k w)
unfolding should_retry_err is_sentinel is_fatal as_retry_after
healing-Passes n zero w h = tt
healing-Passes n (suc k) w h = ((refl, refl, λ d. (d, refl)), h, refl)

execute-succeeds_example :
    (execute background (some healing) none (record (world plain) { user = (4, 0) })).0
    ≡ returned none
unfolding default_config
execute-succeeds_example =
    execute-succeeds (λ n u. u.0) background healing (record (world plain) { user = (4, 0) })
      plain-IsBare (refl, refl) (λ c s v h. healing-Passes s.attempt v.user.0 v h) (omega arith)
  where
    plain-IsBare : IsBare plain
    plain-IsBare = record {
      composed = refl;
      pipeline = refl;
      rate_limiter = refl;
      adaptive_limiter = refl;
      bulkhead = refl;
      priority_bulkhead = refl;
      circuit_breaker = refl;
      chaos = refl;
      adaptive_bucket = refl;
    }
