-- ===== src/Pipeline/Middleware.antt =====
-- The middlewares of retry.go for bulkheads, deadlines, time-outs, the instrumenter, panics and
-- fallbacks; Guarded has those for the other components, Attempt those for chaos and retries.
use resile.Context.{Context, ctx_err, remaining, with_timeout}
use resile.Errors.{bulkhead_full, shed_load, deadline_exceeded, sentinel, panic_error, is_error}
use resile.Limits.Bulkhead
use resile.Limits.Bulkhead.{Bulkhead, PriorityBulkhead, Entry}
use resile.Pipeline.Config.{Fallback, err_fallback, Config}
use resile.Pipeline.World.{
  Event, before_attempt, after_attempt, on_bulkhead_full, World, DoAction, tell,
}
use resile.Retry.Loop.{RetryState, Outcome, returned, panicked}
use resile.Prelude.{ℤ, leb_ℤ, Bool, false, ◌||◌, Option, none, some, if◌then◌else◌}

abbrev pub is_full : Outcome → Bool
is_full (returned e) = is_error bulkhead_full e
is_full (panicked v) = false

abbrev pub is_full_or_shed : Outcome → Bool
is_full_or_shed (returned e) = is_error bulkhead_full e || is_error shed_load e
is_full_or_shed (panicked v) = false

module _ {F V U : Type 0} where
  -- The configuration's component after a call: set in the world that the call left.
  abbrev pub with_config : (Config F V → Config F V) → World F V U → World F V U
  with_config g w = record w { config = g w.config }

  -- The instrumenter is told only if there is one.
  abbrev pub tell_if : Bool → Event → World F V U → World F V U
  tell_if told e w = if told then elim w.config.instrumenter [ none ↦ w | some i ↦ tell e w ] else w

  -- Bulkheads: the slot is given back on a return and on a panic.
  abbrev pub release_bulkhead : World F V U → World F V U
  release_bulkhead w =
      with_config
        (λ c. record c {
          bulkhead = elim c.bulkhead [ none ↦ none | some b ↦ some (Bulkhead.leave b) ];
        })
        w

  abbrev pub release_priority_bulkhead : World F V U → World F V U
  release_priority_bulkhead w =
      with_config
        (λ c. record c {
          priority_bulkhead = elim c.priority_bulkhead [
            | none ↦ none
            | some b ↦ some (Bulkhead.leave_priority b)
          ];
        })
        w

  abbrev pub in_bulkhead :
      DoAction F V U → Context → RetryState → World F V U → Entry → Outcome × World F V U
  in_bulkhead next ctx st w (Entry.refused e) = (returned (some e), w)
  in_bulkhead next ctx st w Entry.entered = let (r, w') = next ctx st w in (r, release_bulkhead w')

  abbrev pub in_priority_bulkhead :
      DoAction F V U → Context → RetryState → World F V U → Entry → Outcome × World F V U
  in_priority_bulkhead next ctx st w (Entry.refused e) = (returned (some e), w)
  in_priority_bulkhead next ctx st w Entry.entered =
      let (r, w') = next ctx st w in (r, release_priority_bulkhead w')

  abbrev pub through_bulkhead :
      DoAction F V U → Context → RetryState → World F V U → Option Bulkhead → Outcome × World F V U
  through_bulkhead next ctx st w none = next ctx st w
  through_bulkhead next ctx st w (some b) =
      let (entry, b') = Bulkhead.enter w.takes_slot (ctx_err ctx w.clock) b in
      let (r, w') =
        in_bulkhead next ctx st (with_config (λ c. record c { bulkhead = some b' }) w) entry in
      (r, tell_if (is_full r) (on_bulkhead_full st) w')

  unfoldable pub bulkhead_middleware : DoAction F V U → DoAction F V U
  bulkhead_middleware next ctx st w = through_bulkhead next ctx st w w.config.bulkhead

  abbrev pub through_deadline :
      DoAction F V U → Context → RetryState → World F V U → Option ℤ → Outcome × World F V U
  through_deadline next ctx st w none = next ctx st w
  through_deadline next ctx st w (some left) =
      if leb_ℤ left w.config.min_deadline_threshold
      then (returned (some (sentinel deadline_exceeded)), w)
      else next ctx st w

  unfoldable pub deadline_middleware : DoAction F V U → DoAction F V U
  deadline_middleware next ctx st w = through_deadline next ctx st w (remaining ctx w.clock)

  unfoldable pub timeout_middleware : ℤ → DoAction F V U → DoAction F V U
  timeout_middleware d next ctx st w = next (with_timeout ctx d w.clock) st w

  abbrev pub after_attempt_of : RetryState → Outcome × World F V U → Outcome × World F V U
  after_attempt_of st (returned e, w) =
      (returned e, tell (after_attempt (record st { last_error = e })) w)
  after_attempt_of st (panicked v, w) = (panicked v, w)

  abbrev pub through_instrumenter :
      DoAction F V U
      → Context
      → RetryState
      → World F V U
      → Option (Context → RetryState → Context)
      → Outcome × World F V U
  through_instrumenter next ctx st w none = next ctx st w
  through_instrumenter next ctx st w (some before) =
      after_attempt_of st (next (before ctx st) st (tell (before_attempt st) w))

  unfoldable pub instrumenter_middleware : DoAction F V U → DoAction F V U
  instrumenter_middleware next ctx st w = through_instrumenter next ctx st w w.config.instrumenter

  abbrev pub recovered : Outcome × World F V U → Outcome × World F V U
  recovered (returned e, w) = (returned e, w)
  recovered (panicked v, w) = (returned (some (panic_error v)), w)

  unfoldable pub panic_recovery_middleware : DoAction F V U → DoAction F V U
  panic_recovery_middleware next ctx st w = recovered (next ctx st w)

  abbrev pub fall_back :
      Context → Option (Fallback V) → Outcome × World F V U → Outcome × World F V U
  fall_back ctx (some (err_fallback g)) (returned (some e), w) = (returned (g ctx e), w)
  fall_back ctx _ r = r

  unfoldable pub fallback_middleware : DoAction F V U → DoAction F V U
  fallback_middleware next ctx st w =
      let (r, w') = next ctx st w in fall_back ctx w'.config.fallback (r, w')
