-- ===== src/Pipeline/Policies.antt =====
-- What NewPolicy of policy.go makes of a list of options, and how execute of retry.go runs it.
use resile.Context.{Context}
use resile.Float.{Float}
use resile.Pipeline.Config.{Middleware, Config, default_config}
use resile.Pipeline.World.{World, DoAction}
use resile.Pipeline.Options
use resile.Pipeline.Options.{push, configure, new_policy, with_adaptive_limiter}
use resile.Pipeline.Compose.{
  default_pipeline, get_composed_pipeline, build_default_pipeline, terminal_action, first_state,
  compose, execute,
}
use resile.Retry.Loop.{Outcome}
use mathlib.Core.List.{append_assoc, append-nil}
use resile.Pipeline.Nested.{nested, by_default, compose-all_added, compose-default}
use resile.Prelude.{
  Bool, true, false, ap, ◌∙◌, if◌then◌else◌, ◌≡◌, refl, sym, subst, Option, none, some, List, [],
  ◌∷◌, ◌++◌,
}
use resile.Pipeline.Choices.{
  Choice, adds, all_added, option_of, options_of, fallback, fallback_err, name, max_attempts, retry,
  base_delay, max_delay, timeout, hedging_delay, min_deadline_threshold, backoff, retry_if,
  retry_if_func, instrumenter, circuit_breaker, bulkhead, bulkhead_instance, priority_bulkhead,
  priority_bulkhead_instance, rate_limiter, rate_limiter_instance, adaptive_limiter,
  adaptive_limiter_instance, adaptive_bucket, panic_recovery, chaos,
}

module _ {F V : Type 0} where
  -- A configuration that a policy is building, with these middlewares so far.
  abbrev IsBuilt : List Middleware → Config F V → Type 0
  IsBuilt ms c = (c.pipeline ≡ some ms) × (c.composed ≡ none)

module _ {F V : Type 0} ⦃f : Float F⦄ where
  option_of-IsBuilt :
      (x : Choice F V) (c : Config F V) (ms : List Middleware)
      → IsBuilt ms c
      → IsBuilt (ms ++ adds x) (option_of x c)
  unfolding Options.with_fallback Options.with_fallback_err Options.with_name
      Options.with_max_attempts Options.with_retry Options.with_base_delay Options.with_max_delay
      Options.with_timeout Options.with_hedging_delay Options.with_min_deadline_threshold
      Options.with_backoff Options.with_retry_if Options.with_retry_if_func
      Options.with_instrumenter Options.with_circuit_breaker Options.with_bulkhead
      Options.with_bulkhead_instance Options.with_priority_bulkhead
      Options.with_priority_bulkhead_instance Options.with_rate_limiter
      Options.with_rate_limiter_instance with_adaptive_limiter
      Options.with_adaptive_limiter_instance Options.with_adaptive_bucket
      Options.with_panic_recovery Options.with_chaos
  option_of-IsBuilt (fallback g) c ms h = rw h.0 (refl, h.1)
  option_of-IsBuilt (fallback_err g) c ms h = rw h.0 (refl, h.1)
  option_of-IsBuilt (name s) c ms h = rw (append-nil ms) h
  option_of-IsBuilt (max_attempts n) c ms h = rw h.0 (refl, h.1)
  option_of-IsBuilt (retry n) c ms h = rw h.0 (refl, h.1)
  option_of-IsBuilt (base_delay d) c ms h = rw (append-nil ms) h
  option_of-IsBuilt (max_delay d) c ms h = rw (append-nil ms) h
  option_of-IsBuilt (timeout d) c ms h = rw h.0 (refl, h.1)
  option_of-IsBuilt (hedging_delay d) c ms h = rw (append-nil ms) h
  option_of-IsBuilt (min_deadline_threshold d) c ms h = rw h.0 (refl, h.1)
  option_of-IsBuilt (backoff b) c ms h = rw (append-nil ms) h
  option_of-IsBuilt (retry_if t) c ms h = rw (append-nil ms) h
  option_of-IsBuilt (retry_if_func g) c ms h = rw (append-nil ms) h
  option_of-IsBuilt (instrumenter i) c ms h = rw h.0 (refl, h.1)
  option_of-IsBuilt (circuit_breaker b) c ms h = rw h.0 (refl, h.1)
  option_of-IsBuilt (bulkhead n) c ms h = rw h.0 (refl, h.1)
  option_of-IsBuilt (bulkhead_instance b) c ms h = rw h.0 (refl, h.1)
  option_of-IsBuilt (priority_bulkhead n ts) c ms h = rw h.0 (refl, h.1)
  option_of-IsBuilt (priority_bulkhead_instance b) c ms h = rw h.0 (refl, h.1)
  option_of-IsBuilt (rate_limiter now l i) c ms h = rw h.0 (refl, h.1)
  option_of-IsBuilt (rate_limiter_instance l) c ms h = rw h.0 (refl, h.1)
  option_of-IsBuilt (adaptive_limiter now) c ms h = rw h.0 (refl, h.1)
  option_of-IsBuilt (adaptive_limiter_instance l) c ms h = rw h.0 (refl, h.1)
  option_of-IsBuilt (adaptive_bucket b) c ms h = rw (append-nil ms) h
  option_of-IsBuilt panic_recovery c ms h = rw h.0 (refl, h.1)
  option_of-IsBuilt (chaos k) c ms h = rw h.0 (refl, h.1)

  configure-IsBuilt :
      (xs : List (Choice F V)) (c : Config F V) (ms : List Middleware)
      → IsBuilt ms c
      → IsBuilt (ms ++ all_added xs) (configure (options_of xs) c)
  configure-IsBuilt [] c ms h = rw (append-nil ms) h
  configure-IsBuilt (x ∷ xs) c ms h =
      subst (λ l. IsBuilt l (configure (options_of xs) (option_of x c)))
        (append_assoc ms (adds x) (all_added xs))
        (configure-IsBuilt xs (option_of x c) (ms ++ adds x) (option_of-IsBuilt x c ms h))

  new_policy-IsBuilt :
      (xs : List (Choice F V)) → IsBuilt (all_added xs) (new_policy (options_of xs))
  unfolding new_policy default_config
  new_policy-IsBuilt xs =
      configure-IsBuilt xs (record (default_config) { pipeline = some [] }) [] (refl, refl)

abbrev is_empty : {A : Type 0} → List A → Bool
is_empty [] = true
is_empty (x ∷ xs) = false

module _ {F V : Type 0} where
  -- The middlewares as they are, or, where there are none, the default ones.
  abbrev pub or_all : Config F V → List Middleware → List Middleware
  or_all c [] = default_pipeline c
  or_all c (m ∷ ms) = m ∷ ms

  -- The configuration once its pipeline is composed of these middlewares.
  abbrev pub composed_as : List Middleware → Config F V → Config F V
  composed_as ms c = record c { pipeline = some ms; composed = some ms }

  composed_of :
      (ms : List Middleware) (c : Config F V)
      → IsBuilt ms c
      → get_composed_pipeline c ≡ (or_all c ms, composed_as (or_all c ms) c)
  unfolding get_composed_pipeline build_default_pipeline
  composed_of [] c h = rw (h.1, h.0) refl
  composed_of (m ∷ ms) c h = rw (h.1, h.0) refl

module _ {F V U : Type 0} ⦃f : Float F⦄ where
  -- What a policy with these options puts round an action: the middlewares of its options, or where
  -- no option stands for one, those of the default pipeline.
  abbrev pub wrapped : List (Choice F V) → Config F V → DoAction F V U → DoAction F V U
  wrapped xs c base = if is_empty (all_added xs) then by_default c base else nested xs base

  compose-or_all :
      (xs : List (Choice F V)) (c : Config F V) (base : DoAction F V U) (ms : List Middleware)
      → all_added xs ≡ ms
      → compose (or_all c ms) base ≡ (if is_empty ms then by_default c base else nested xs base)
  compose-or_all xs c base [] e = compose-default c base
  compose-or_all xs c base (m ∷ ms) e = ap (λ l. compose l base) (sym e) ∙ compose-all_added xs base

  -- A policy calls the middlewares of its options one inside the other, in the order of the options,
  -- the first one outermost, round the action, whatever other options stand between them; where no
  -- option stands for a middleware, it calls the limiters and bulkheads that are set, inside them
  -- the retry loop, and inside that, with every attempt, the deadline's test, the time-out if it is
  -- positive, the breaker, the instrumenter, the recovery of panics and the chaos, where they are
  -- set.
  pub execute-new_policy :
      (xs : List (Choice F V)) (ctx : Context) (action : Option (DoAction F V U))
      (simple : Option (Context → World F V U → Outcome × World F V U)) (w : World F V U)
      → w.config ≡ new_policy (options_of xs)
      → execute ctx action simple w
        ≡ wrapped xs w.config
            (terminal_action simple action)
            ctx
            (first_state w.config)
            (record w { config = composed_as (or_all w.config (all_added xs)) w.config })
  unfolding execute
  execute-new_policy xs ctx action simple w e =
      let built = subst (IsBuilt (all_added xs)) (sym e) (new_policy-IsBuilt xs) in
      let base = terminal_action simple action in
      let c = composed_as (or_all w.config (all_added xs)) w.config in
      ap (λ (ms, k). compose ms base ctx (first_state k) (record w { config = k }))
        (composed_of (all_added xs) w.config built)
      ∙ ap (λ a. a ctx (first_state w.config) (record w { config = c }))
          (compose-or_all xs w.config base (all_added xs) refl)
