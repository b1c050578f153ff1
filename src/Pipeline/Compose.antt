-- ===== src/Pipeline/Compose.antt =====
-- Composing and running the pipeline: getComposedPipeline, buildDefaultPipeline and execute of
-- retry.go.
use resile.Context.{Context}
use resile.Float.{Float}
use resile.Pipeline.Config.{
  Middleware, rate_limiter, adaptive_limiter, bulkhead, priority_bulkhead, retry, deadline, timeout,
  circuit_breaker, instrumenter, panic_recovery, chaos, Config,
}
use resile.Pipeline.Attempt.{apply}
use resile.Pipeline.World.{World, DoAction}
use resile.Retry.Loop.{RetryState, Outcome, returned}
use resile.Prelude.{
  pos, ltb_ℤ, Bool, true, false, Option, none, some, List, [], ◌∷◌, ◌++◌, if◌then◌else◌,
}

abbrev pub is_set : {A : Type 0} → Option A → Bool
is_set none = false
is_set (some a) = true

abbrev pub only_if : Bool → Middleware → List Middleware
only_if b m = if b then m ∷ [] else []

abbrev pub or_empty : {A : Type 0} → Option (List A) → List A
or_empty none = []
or_empty (some l) = l

module _ {F V : Type 0} where
  unfoldable pub default_pipeline : Config F V → List Middleware
  default_pipeline c =
      only_if (is_set c.rate_limiter) rate_limiter
      ++ only_if (is_set c.adaptive_limiter) adaptive_limiter
      ++ only_if (is_set c.bulkhead) bulkhead
      ++ only_if (is_set c.priority_bulkhead) priority_bulkhead
      ++ retry ∷ deadline ∷ []
      ++ only_if (ltb_ℤ (pos 0) c.timeout) (timeout c.timeout)
      ++ only_if (is_set c.circuit_breaker) circuit_breaker
      ++ instrumenter ∷ []
      ++ only_if c.recover_panics panic_recovery
      ++ only_if (is_set c.chaos) chaos

  unfoldable pub build_default_pipeline : Config F V → Config F V
  unfolding default_pipeline
  build_default_pipeline c = record c {
    pipeline = some (or_empty c.pipeline ++ default_pipeline c);
  }

  abbrev pub or_default : List Middleware → Config F V → Config F V
  or_default [] c = build_default_pipeline c
  or_default (m ∷ ms) c = c

  abbrev pub cache : Config F V → List Middleware × Config F V
  cache c = let ms = or_empty c.pipeline in (ms, record c { composed = some ms })

  -- The middlewares that the composed pipeline consists of, outermost first, and the configuration
  -- that remembers them.
  unfoldable pub get_composed_pipeline : Config F V → List Middleware × Config F V
  unfolding build_default_pipeline
  get_composed_pipeline c = elim c.composed [
    | some ms ↦ (ms, c)
    | none ↦ cache (or_default (or_empty c.pipeline) c)
  ]

module _ {F V : Type 0} where
  abbrev pub first_state : Config F V → RetryState
  first_state c = record {
    name = c.name;
    attempt = 0;
    max_attempts = c.max_attempts;
    last_error = none;
    total_duration = 0;
    next_delay = pos 0;
  }

module _ {F V U : Type 0} where
  -- The base of the pipeline: the simple action, or the action, or success where both are nil.
  unfoldable pub terminal_action :
      Option (Context → World F V U → Outcome × World F V U)
      → Option (DoAction F V U)
      → DoAction F V U
  terminal_action (some simple) action ctx st w = simple ctx w
  terminal_action none none ctx st w = (returned none, w)
  terminal_action none (some act) ctx st w = act ctx st w

module _ {F V U : Type 0} ⦃f : Float F⦄ where
  unfoldable pub compose : List Middleware → DoAction F V U → DoAction F V U
  compose [] base = base
  compose (m ∷ ms) base = apply m (compose ms base)

  unfoldable pub execute :
      Context
      → Option (DoAction F V U)
      → Option (Context → World F V U → Outcome × World F V U)
      → World F V U
      → Outcome × World F V U
  unfolding get_composed_pipeline compose terminal_action
  execute ctx action simple w =
      let (ms, c) = get_composed_pipeline w.config in
      compose ms (terminal_action simple action) ctx (first_state c) (record w { config = c })
