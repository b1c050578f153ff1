-- ===== src/Pipeline/Order.antt =====
-- How execute of retry.go nests the middlewares, and what the one of the bulkhead gives back.
use resile.Context.{Context, ctx_err}
use resile.Errors.{Err}
use resile.Float.{Float}
use resile.Limits.Bulkhead.{Bulkhead, Entry, refused, entered, enter, leave}
use resile.Limits.Occupancy.{enter-entered, enter-refused}
use resile.Pipeline.Config.{
  Middleware, rate_limiter, adaptive_limiter, bulkhead, priority_bulkhead, retry, deadline, timeout,
  circuit_breaker, instrumenter, panic_recovery, chaos, Config,
}
use resile.Pipeline.World.{Event, on_bulkhead_full, World, DoAction}
use resile.Pipeline.Attempt.{apply, retry_middleware}
use resile.Pipeline.Middleware.{
  bulkhead_middleware, is_full, in_bulkhead, through_bulkhead, with_config, tell_if,
}
use resile.Pipeline.Compose.{
  is_set, only_if, default_pipeline, get_composed_pipeline, first_state, terminal_action, compose,
  execute, build_default_pipeline,
}
use resile.Retry.Loop.{RetryState}
use mathlib.Core.List.{append_assoc}
use resile.Prelude.{
  ℕ, ◌+◌, ◌-◌, pos, ltb_ℤ, ◌≡◌, refl, ap, ◌∙◌, Bool, Option, none, some, List, [], ◌∷◌, ◌++◌, arith,
}

-- What a default pipeline has outside the retry loop, once per execution, and inside it, once per
-- attempt.
abbrev pub outside : {F V : Type 0} → Config F V → List Middleware
outside c =
    only_if (is_set c.rate_limiter) rate_limiter
    ++ only_if (is_set c.adaptive_limiter) adaptive_limiter
    ++ only_if (is_set c.bulkhead) bulkhead
    ++ only_if (is_set c.priority_bulkhead) priority_bulkhead

abbrev pub inside : {F V : Type 0} → Config F V → List Middleware
inside c =
    deadline ∷ []
    ++ only_if (ltb_ℤ (pos 0) c.timeout) (timeout c.timeout)
    ++ only_if (is_set c.circuit_breaker) circuit_breaker
    ++ instrumenter ∷ []
    ++ only_if c.recover_panics panic_recovery
    ++ only_if (is_set c.chaos) chaos

module _ {F V : Type 0} where
  pub default_pipeline-parts : (c : Config F V) → default_pipeline c ≡ outside c ++ retry ∷ inside c
  unfolding default_pipeline
  default_pipeline-parts c = simp (append_assoc)

  pub fresh_pipeline :
      (c : Config F V)
      → c.composed ≡ none
      → c.pipeline ≡ none
      → ((get_composed_pipeline c).0 ≡ default_pipeline c)
        × (first_state (get_composed_pipeline c).1 ≡ first_state c)
  unfolding get_composed_pipeline build_default_pipeline
  fresh_pipeline c fresh bare = rw (fresh, bare) (refl, refl)

module _ {F V U : Type 0} ⦃f : Float F⦄ where
  pub compose-append :
      (ms ns : List Middleware) (base : DoAction F V U)
      → compose (ms ++ ns) base ≡ compose ms (compose ns base)
  unfolding compose
  compose-append [] ns base = refl
  compose-append (m ∷ ms) ns base = ap (apply m) (compose-append ms ns base)

  -- An execution of a configuration that no policy built, whose pipeline is not yet composed, runs
  -- its limiters and bulkheads once, outside the retry loop; the deadline's test, the time-out, the
  -- circuit breaker, the instrumenter, the recovery of panics and the chaos are inside the loop and
  -- run with every attempt.
  pub execute-default :
      (ctx : Context) (action : DoAction F V U) (w : World F V U)
      → w.config.composed ≡ none
      → w.config.pipeline ≡ none
      → let c = (get_composed_pipeline w.config).1 in
        execute ctx (some action) none w
        ≡ compose
            (outside w.config)
            (retry_middleware (compose (inside w.config) action))
            ctx
            (first_state w.config)
            (record w { config = c })
  unfolding execute compose apply terminal_action
  execute-default ctx action w fresh bare =
      let (parts, same) = fresh_pipeline w.config fresh bare in
      let c = (get_composed_pipeline w.config).1 in
      rw (parts, same, default_pipeline-parts w.config)
        (ap (λ a. a ctx (first_state w.config) (record w { config = c }))
          (compose-append (outside w.config) (retry ∷ inside w.config) action))

  tell_if-config :
      (told : Bool) (e : Event) (w : World F V U)
      → (tell_if told e w).config.bulkhead ≡ w.config.bulkhead
  tell_if-config told e w = ground arith

  given_back :
      (next : DoAction F V U) (ctx : Context) (st : RetryState) (w : World F V U)
      → ((c : Context) (s : RetryState) (v : World F V U)
          → (next c s v).1.config.bulkhead ≡ v.config.bulkhead)
      → (takes_slot : Bool) (err : Option Err) (b b' : Bulkhead) (entry : Entry)
      → enter takes_slot err b ≡ (entry, b')
      → w.config.bulkhead ≡ some b'
      → (in_bulkhead next ctx st w entry).1.config.bulkhead ≡ some b
  unfolding leave
  given_back next ctx st w kept takes_slot err b b' (refused e) tried at =
      at ∙ ap some (enter-refused takes_slot err b b' e tried).0
  given_back next ctx st w kept takes_slot err b b' entered tried at =
      let (free, cap_, one) = enter-entered takes_slot err b b' tried in
      rw (kept ctx st w, at, cap_, one)
        (ap (λ n. some (record { capacity = b.capacity; held = n })) (back b.held))
    where
      back : (n : ℕ) → n + 1 - 1 ≡ n
      back n = omega arith

  through-balanced :
      (next : DoAction F V U) (ctx : Context) (st : RetryState) (w : World F V U)
      → ((c : Context) (s : RetryState) (v : World F V U)
          → (next c s v).1.config.bulkhead ≡ v.config.bulkhead)
      → (o : Option Bulkhead) → w.config.bulkhead ≡ o
      → (through_bulkhead next ctx st w o).1.config.bulkhead ≡ o
  through-balanced next ctx st w kept none e = kept ctx st w ∙ e
  through-balanced next ctx st w kept (some b) e =
      let (entry, b') = enter w.takes_slot (ctx_err ctx w.clock) b in
      let inner = with_config (λ c. record c { bulkhead = some b' }) w in
      let (r, w') = in_bulkhead next ctx st inner entry in
      tell_if-config (is_full r) (on_bulkhead_full st) w'
      ∙ given_back next ctx st inner kept w.takes_slot (ctx_err ctx w.clock) b b' entry refl refl

  -- A call through a bulkhead leaves the semaphore as it was, whether it is refused, returns or
  -- panics, if what runs inside leaves it so.
  bulkhead_middleware-balanced :
      (next : DoAction F V U) (ctx : Context) (st : RetryState) (w : World F V U)
      → ((c : Context) (s : RetryState) (v : World F V U)
          → (next c s v).1.config.bulkhead ≡ v.config.bulkhead)
      → (bulkhead_middleware next ctx st w).1.config.bulkhead ≡ w.config.bulkhead
  unfolding bulkhead_middleware
  bulkhead_middleware-balanced next ctx st w kept =
      through-balanced next ctx st w kept w.config.bulkhead refl
