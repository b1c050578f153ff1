-- ===== src/Hedging/Race.antt =====
-- executeHedged of retry.go with its goroutines, and the entry points round it: DoStateHedged,
-- DoErrStateHedged, Config.DoHedged and Config.DoErrHedged. A list of moves says who goes on next. What
-- an attempt does is one move; what others do meanwhile is part of what its action does. What
-- attempts do after the loop has returned is not followed.
use resile.Context.{Context, ctx_err}
use resile.Errors.{Err}
use resile.Float.{Float}
use resile.Hedging.Attempt.{run_attempt}
use resile.Hedging.Loop.{
  Effects, Hedge, context_done, result, timer, Phase, waiting, ended, initial, turn, receive,
}
use resile.Pipeline.Attempt.{acquire_from}
use resile.Pipeline.Config.{Fallback, value_fallback, Config}
use resile.Pipeline.Entry.{Result, gives, panics, err_or_fallback}
use resile.Pipeline.Middleware.{with_config}
use resile.Pipeline.Options.{new}
use resile.Pipeline.World.{World, DoAction}
use resile.Retry.Bucket.{add_success_token}
use resile.Retry.Loop.{RetryState, Outcome, returned, panicked}
use resile.Retry.Policy.{should_retry_err}
use resile.Prelude.{
  ℕ, ◌+◌, Bool, true, false, ◌&&◌, Option, none, some, List, [], ◌∷◌, ◌++◌, ltb, if◌then◌else◌,
}

-- The loop, the channel `results`, the number of goroutines that have ended, and the value of a
-- panic in one of them, which ends the program.
pub record Race (F V U : Type 0) : Type 0 where
  pub phase : Phase (World F V U)
  pub sent : List (Option Err)
  pub finished : ℕ
  pub crashed : Option ℕ

-- A goroutine runs attempt `a` to its end (and does not send, if the context is done and its select
-- takes that case), or the loop's select takes one of its cases.
pub data Move : Type 0 where
  finish : ℕ → Bool → Move
  take done tick : Move

abbrev pub is_some : Option Err → Bool
is_some none = false
is_some (some e) = true

module _ {F V U : Type 0} ⦃f : Float F⦄ where
  abbrev pub hedged_effects : Config F V → Effects (World F V U)
  hedged_effects c = record {
    acquire_retry_token = λ w. acquire_from w w.config.adaptive_bucket;
    add_success_token = λ w.
        with_config
          (λ k. record k {
            adaptive_bucket = elim k.adaptive_bucket [
              | none ↦ none
              | some b ↦ some (add_success_token b)
            ];
          })
          w;
    should_retry = λ e. should_retry_err c.policy e;
  }

module _ {F V U : Type 0} ⦃f : Float F⦄ (eff : Effects (World F V U)) (limit : ℕ) (ctx : Context)
    (start : ℕ) (action : Option (DoAction F V U))
    (simple : Option (Context → World F V U → Outcome × World F V U)) where
  -- The end of a goroutine.
  abbrev pub reported : Race F V U → Hedge (World F V U) → Bool → Outcome × World F V U → Race F V U
  reported r h dropped (returned e, w) = record r {
    phase = waiting (record h { world = w });
    finished = r.finished + 1;
    sent = if dropped && is_some (ctx_err ctx w.clock) then r.sent else r.sent ++ e ∷ [];
  }
  reported r h dropped (panicked n, w) = record r {
    phase = waiting (record h { world = w });
    finished = r.finished + 1;
    crashed = some n;
  }

  abbrev pub taken : Race F V U → Hedge (World F V U) → List (Option Err) → Race F V U
  taken r h [] = r
  taken r h (e ∷ es) = record r { phase = receive eff limit (result e) h; sent = es }

  abbrev pub if_done : Race F V U → Hedge (World F V U) → Option Err → Race F V U
  if_done r h none = r
  if_done r h (some e) = record r { phase = receive eff limit (context_done e) h }

  abbrev pub go_on : Move → Race F V U → Phase (World F V U) → Race F V U
  go_on m r (ended e w) = r
  go_on (finish a dropped) r (waiting h) =
      if ltb r.finished h.launched
      then reported r h dropped (run_attempt ctx start a action simple h.world)
      else r
  go_on take r (waiting h) = taken r h r.sent
  go_on done r (waiting h) = if_done r h (ctx_err ctx h.world.clock)
  go_on tick r (waiting h) =
      if ltb h.attempts_started limit then record r { phase = receive eff limit timer h } else r

  abbrev pub unless_crashed : Move → Race F V U → Option ℕ → Race F V U
  unless_crashed m r (some n) = r
  unless_crashed m r none = go_on m r r.phase

  unfoldable pub race : List Move → Race F V U → Race F V U
  race [] r = r
  race (m ∷ ms) r = race ms (unless_crashed m r r.crashed)

module _ {F V U : Type 0} ⦃f : Float F⦄ where
  unfoldable pub race_hedged :
      Context
      → Option (DoAction F V U)
      → Option (Context → World F V U → Outcome × World F V U)
      → List Move
      → World F V U
      → Race F V U
  unfolding race
  race_hedged ctx action simple moves w =
      let eff = hedged_effects w.config in
      let limit = w.config.max_attempts in
      race eff limit ctx w.clock action simple moves
        (record { phase = turn eff limit (initial w); sent = []; finished = 0; crashed = none })

-- What `once` guards: the first value that came without an error.
abbrev pub first_of : {V : Type 0} → Option V → V → Option V
first_of none v = some v
first_of (some u) v = some u

abbrev pub or_zero : {V : Type 0} → V → Option V → V
or_zero zero_value none = zero_value
or_zero zero_value (some v) = v

module _ {V : Type 0} where
  abbrev pub hedged_fallback : Context → Option (Fallback V) → Result V → Result V
  hedged_fallback ctx (some (value_fallback g)) (gives v (some e)) = gives (g ctx e).0 (g ctx e).1
  hedged_fallback ctx _ r = r

-- An action that returns a value and an error.
abbrev pub HedgedAction : Type 0 → Type 0 → Type 0 → Type 0
HedgedAction F V U =
    Context → RetryState → World F V (Option V × U) → Result V × World F V (Option V × U)

module _ {F V U : Type 0} where
  abbrev pub store_once : Result V × World F V (Option V × U) → Outcome × World F V (Option V × U)
  store_once (gives v none, w) =
      (returned none, record w { user = (first_of w.user.0 v, w.user.1) })
  store_once (gives v (some e), w) = (returned (some e), w)
  store_once (panics n, w) = (panicked n, w)

  abbrev pub storing_once : HedgedAction F V U → DoAction F V (Option V × U)
  storing_once action ctx st w = store_once (action ctx st w)

  -- How the entry point ends; `none` while the loop runs.
  abbrev pub value_of :
      V → Context → Option ℕ → Phase (World F V (Option V × U)) → Option (Result V)
  value_of zero_value ctx (some n) p = some (panics n)
  value_of zero_value ctx none (waiting h) = none
  value_of zero_value ctx none (ended e w) =
      some (hedged_fallback ctx w.config.fallback (gives (or_zero zero_value w.user.0) e))

  abbrev pub outcome_of : Context → Option ℕ → Phase (World F V U) → Option Outcome
  outcome_of ctx (some n) p = some (panicked n)
  outcome_of ctx none (waiting h) = none
  outcome_of ctx none (ended e w) = some (err_or_fallback ctx w.config.fallback (returned e, w)).0

module _ {F V U : Type 0} ⦃f : Float F⦄ where
  -- Config.DoHedged, and DoStateHedged once the options are applied.
  unfoldable pub config_do_hedged :
      V → Context → HedgedAction F V U → List Move → World F V (Option V × U) → Option (Result V)
  unfolding race_hedged
  config_do_hedged zero_value ctx action moves w =
      let r =
        race_hedged ctx (some (storing_once action)) none moves
          (record w { user = (none, w.user.1) }) in
      value_of zero_value ctx r.crashed r.phase

  unfoldable pub do_state_hedged :
      List (Config F V → Config F V)
      → V
      → Context
      → HedgedAction F V U
      → List Move
      → World F V (Option V × U)
      → Option (Result V)
  unfolding config_do_hedged new
  do_state_hedged opts zero_value ctx action moves w =
      config_do_hedged zero_value ctx action moves (record w { config = new opts })

  unfoldable pub config_do_err_hedged :
      Context
      → (Context → World F V U → Outcome × World F V U)
      → List Move
      → World F V U
      → Option Outcome
  unfolding race_hedged
  config_do_err_hedged ctx action moves w =
      let r = race_hedged ctx none (some action) moves w in outcome_of ctx r.crashed r.phase

  unfoldable pub do_err_state_hedged :
      List (Config F V → Config F V)
      → Context
      → DoAction F V U
      → List Move
      → World F V U
      → Option Outcome
  unfolding race_hedged new
  do_err_state_hedged opts ctx action moves w =
      let r = race_hedged ctx (some action) none moves (record w { config = new opts }) in
      outcome_of ctx r.crashed r.phase
