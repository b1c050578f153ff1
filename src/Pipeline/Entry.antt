-- ===== src/Pipeline/Entry.antt =====
-- The entry points of retry.go and policy.go: Do, DoErr and their kin, round `execute`. The result
-- variable that the closure assigns stands beside the caller's state.
use resile.Circuit.Breaker
use resile.Circuit.State.{Breaker, StateEvent}
use resile.Context.{Context}
use resile.Errors.{Err}
use resile.Float.{Float}
use resile.Pipeline.Config.{Fallback, err_fallback, value_fallback, Config}
use resile.Pipeline.World.{World, DoAction}
use resile.Pipeline.Compose.{execute}
use resile.Pipeline.Options.{new}
use resile.Retry.Loop.{RetryState, Outcome, returned, panicked}
use resile.Prelude.{ℕ, Option, none, some, List}

-- How an entry point ends: a value and an error, or a panic.
pub data Result (V : Type 0) : Type 0 where
  gives : V → Option Err → Result V
  panics : ℕ → Result V

-- An action that returns a value and an error.
abbrev pub ValueAction : Type 0 → Type 0 → Type 0 → Type 0
ValueAction F V U = Context → RetryState → World F V (V × U) → Result V × World F V (V × U)

module _ {F V U : Type 0} where
  abbrev pub assign : Result V × World F V (V × U) → Outcome × World F V (V × U)
  assign (gives v e, w) = (returned e, record w { user = (v, w.user.1) })
  assign (panics n, w) = (panicked n, w)

  abbrev pub storing : ValueAction F V U → DoAction F V (V × U)
  storing action ctx st w = assign (action ctx st w)

  abbrev pub result_of : Outcome × World F V (V × U) → Result V × World F V (V × U)
  result_of (returned e, w) = (gives w.user.0 e, w)
  result_of (panicked n, w) = (panics n, w)

  -- The fallback at the top: only one whose type is that of the action's value.
  abbrev pub value_or_fallback :
      Context → Option (Fallback V) → Result V × World F V (V × U) → Result V × World F V (V × U)
  value_or_fallback ctx (some (value_fallback g)) (gives v (some e), w) =
      (gives (g ctx e).0 (g ctx e).1, w)
  value_or_fallback ctx _ r = r

  abbrev pub err_or_fallback :
      Context → Option (Fallback V) → Outcome × World F V U → Outcome × World F V U
  err_or_fallback ctx (some (err_fallback g)) (returned (some e), w) = (returned (g ctx e), w)
  err_or_fallback ctx _ r = r

module _ {F V U : Type 0} ⦃f : Float F⦄ where
  -- Config.Do, and DoState and Do once the options are applied.
  unfoldable pub config_do :
      Context → ValueAction F V U → World F V (V × U) → Result V × World F V (V × U)
  config_do ctx action w =
      let (r, w') = execute ctx (some (storing action)) none w in
      value_or_fallback ctx w'.config.fallback (result_of (r, w'))

  unfoldable pub config_do_err :
      Context
      → (Context → World F V U → Outcome × World F V U)
      → World F V U
      → Outcome × World F V U
  config_do_err ctx action w =
      let (r, w') = execute ctx none (some action) w in
      err_or_fallback ctx w'.config.fallback (r, w')

  -- DoErrState: the action is given the retry state.
  unfoldable pub config_do_err_state :
      Context → DoAction F V U → World F V U → Outcome × World F V U
  config_do_err_state ctx action w =
      let (r, w') = execute ctx (some action) none w in
      err_or_fallback ctx w'.config.fallback (r, w')

  unfoldable pub do_state :
      List (Config F V → Config F V)
      → V
      → Context
      → ValueAction F V U
      → World F V (V × U)
      → Result V × World F V (V × U)
  unfolding config_do new
  do_state opts zero_value ctx action w =
      config_do ctx action (record w { config = new opts; user = (zero_value, w.user.1) })

  unfoldable pub do_err_state :
      List (Config F V → Config F V)
      → Context
      → DoAction F V U
      → World F V U
      → Outcome × World F V U
  unfolding config_do_err_state new
  do_err_state opts ctx action w = config_do_err_state ctx action (record w { config = new opts })

  -- Policy.Do and Policy.DoErr.
  unfoldable pub policy_do :
      Context → ValueAction F V U → World F V (V × U) → Result V × World F V (V × U)
  policy_do ctx action w = result_of (execute ctx (some (storing action)) none w)

  unfoldable pub policy_do_err :
      Context
      → (Context → World F V U → Outcome × World F V U)
      → World F V U
      → Outcome × World F V U
  policy_do_err ctx action w = execute ctx none (some action) w

module _ {F V : Type 0} where
  abbrev pub breaker_health :
      Config F V → Option (Breaker F) → Option (List StateEvent) × Config F V
  breaker_health c none = (none, c)
  breaker_health c (some b) =
      let (q, b') = Breaker.health b in (some q, record c { circuit_breaker = some b' })

  -- Policy.Health: what the breaker's channel holds, or nil.
  unfoldable pub policy_health : Config F V → Option (List StateEvent) × Config F V
  policy_health c = breaker_health c c.circuit_breaker
