-- ===== src/Hedging/Attempt.antt =====
-- What one attempt of executeHedged in retry.go runs: the middlewares round the action.
use resile.Context.{Context, wait_until, done_at}
use resile.Float.{Float}
use resile.Pipeline.Config.{
  Chaos, Middleware, rate_limiter, bulkhead, priority_bulkhead, deadline, timeout, circuit_breaker,
  instrumenter, panic_recovery, chaos, Config,
}
use resile.Pipeline.World.{World, DoAction}
use resile.Pipeline.Middleware.{recovered, panic_recovery_middleware}
use resile.Pipeline.Attempt.{
  apply, chaos_middleware, inject, roll, or_error, through_chaos, or_inject, delayed_by,
}
use resile.Pipeline.Compose.{is_set, only_if, terminal_action, compose}
use resile.Retry.Loop.{RetryState, Outcome, returned, panicked}
use resile.Errors.{Err}
use resile.Prelude.{
  ℕ, ◌+◌, pos_part, ◌-◌, ◌≡◌, sym, subst, pos, ltb_ℤ, Bool, true, false, Option, none, some, List,
  [], ◌∷◌, ◌++◌, if◌then◌else◌,
}

-- Outermost first; the code wraps them from the action outwards.
abbrev pub inner_pipeline : {F V : Type 0} → Config F V → List Middleware
inner_pipeline c =
    instrumenter ∷ []
    ++ only_if (is_set c.circuit_breaker) circuit_breaker
    ++ deadline ∷ []
    ++ only_if (ltb_ℤ (pos 0) c.timeout) (timeout c.timeout)
    ++ only_if (is_set c.priority_bulkhead) priority_bulkhead
    ++ only_if (is_set c.bulkhead) bulkhead
    ++ only_if (is_set c.rate_limiter) rate_limiter

unfoldable pub hedged_pipeline : {F V : Type 0} → Config F V → List Middleware
hedged_pipeline c =
    only_if (is_set c.chaos) chaos ++ only_if c.recover_panics panic_recovery ++ inner_pipeline c

-- The state that attempt `a` is given, which the loop started at `start`.
abbrev pub hedged_state : {F V : Type 0} → Config F V → ℕ → ℕ → ℕ → RetryState
hedged_state c a start now = record {
  name = c.name;
  attempt = a;
  max_attempts = c.max_attempts;
  last_error = none;
  total_duration = now - start;
  next_delay = c.hedging_delay;
}

-- An outcome that is no panic.
abbrev pub IsCalm : Outcome → Type 0
IsCalm (returned e) = Unit {0}
IsCalm (panicked v) = ⊥

module _ {F V U : Type 0} ⦃f : Float F⦄ where
  -- The body of an attempt's goroutine, up to the send.
  unfoldable pub run_attempt :
      Context
      → ℕ
      → ℕ
      → Option (DoAction F V U)
      → Option (Context → World F V U → Outcome × World F V U)
      → World F V U
      → Outcome × World F V U
  unfolding hedged_pipeline compose terminal_action
  run_attempt ctx start a action simple w =
      compose (hedged_pipeline w.config) (terminal_action simple action) ctx
        (hedged_state w.config a start w.clock) w

  recovered-IsCalm : (r : Outcome × World F V U) → IsCalm (recovered r).0
  recovered-IsCalm (returned e, w) = tt
  recovered-IsCalm (panicked v, w) = tt

  abbrev Calm : DoAction F V U → Type 0
  Calm next = (ctx : Context) (st : RetryState) (w : World F V U) → IsCalm (next ctx st w).0

  if-IsCalm :
      (b : Bool) (x y : Outcome × World F V U)
      → IsCalm x.0
      → IsCalm y.0
      → IsCalm (if b then x else y).0
  if-IsCalm true x y h k = h
  if-IsCalm false x y h k = k

  module _ (next : DoAction F V U) (calm : Calm next) (ctx : Context) (st : RetryState) where
    or_error-IsCalm :
        (p : F) (w : World F V U) (o : Option Err) → IsCalm (or_error p next ctx st w o).0
    or_error-IsCalm p w none = calm ctx st w
    or_error-IsCalm p w (some e) =
        let (hit, w') = roll true p w in
        if-IsCalm hit (returned (some e), w') (next ctx st w') tt (calm ctx st w')

    delayed_by-IsCalm :
        (c : Chaos F) (w : World F V U) (o : Option Err) (t : ℕ)
        → IsCalm (delayed_by c next ctx st w (o, t)).0
    delayed_by-IsCalm c w none t =
        or_error-IsCalm c.error_probability (record w { clock = t }) c.injected_error
    delayed_by-IsCalm c w (some e) t = tt

    chaos-IsCalm :
        (w : World F V U) (o : Option (Chaos F)) → IsCalm (through_chaos next ctx st w o).0
    unfolding inject
    chaos-IsCalm w none = calm ctx st w
    chaos-IsCalm w (some c) =
        let (slow, w') = roll (ltb_ℤ (pos 0) c.latency_duration) c.latency_probability w in
        let (e, t) = wait_until w'.clock (w'.clock + pos_part c.latency_duration) (done_at ctx) in
        if-IsCalm slow (delayed_by c next ctx st w' (e, t)) (or_inject c next ctx st w')
          (delayed_by-IsCalm c w' e t) (or_error-IsCalm c.error_probability w' c.injected_error)

  -- Behind the chaos, if there is any, the recovery of panics comes first.
  chain-IsCalm :
      (chaotic : Bool) (ms : List Middleware) (base : DoAction F V U)
      → Calm (compose (only_if chaotic chaos ++ only_if true panic_recovery ++ ms) base)
  unfolding compose apply panic_recovery_middleware chaos_middleware
  chain-IsCalm false ms base ctx st w = recovered-IsCalm (compose ([] ++ ms) base ctx st w)
  chain-IsCalm true ms base ctx st w =
      chaos-IsCalm (compose (panic_recovery ∷ ([] ++ ms)) base)
        (λ c s v. recovered-IsCalm (compose ([] ++ ms) base c s v)) ctx st w w.config.chaos

  -- With the recovery of panics, no attempt of a hedged execution panics in its goroutine, whatever
  -- the action and the other middlewares do.
  pub run_attempt-IsCalm :
      (ctx : Context) (start a : ℕ) (action : Option (DoAction F V U))
      (simple : Option (Context → World F V U → Outcome × World F V U)) (w : World F V U)
      → w.config.recover_panics ≡ true
      → IsCalm (run_attempt ctx start a action simple w).0
  unfolding run_attempt hedged_pipeline
  run_attempt-IsCalm ctx start a action simple w on =
      subst
        (λ r.
          IsCalm
            (compose
              (only_if (is_set w.config.chaos) chaos
                ++ only_if r panic_recovery
                ++ inner_pipeline w.config)
              (terminal_action simple action) ctx (hedged_state w.config a start w.clock) w).0)
        (sym on)
        (chain-IsCalm (is_set w.config.chaos) (inner_pipeline w.config)
          (terminal_action simple action) ctx (hedged_state w.config a start w.clock) w)
