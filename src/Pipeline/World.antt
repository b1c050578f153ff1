-- ===== src/Pipeline/World.antt =====
-- The state of an execution: the configuration with its components, the clock, what the random
-- sources will draw, what the instrumenter was told, which case a select takes if a semaphore and
-- a done context are both ready, and the caller's own state.
use resile.Context.{Context}
use resile.Pipeline.Config.{Config}
use resile.Retry.Loop.{RetryState, Outcome}
use resile.Float.{Float, float_ℕ}
use resile.Prelude.{ℕ, Bool, List, [], ◌∷◌, ◌++◌}

-- The calls of an Instrumenter's methods.
pub data Event : Type 0 where
  before_attempt after_attempt on_bulkhead_full on_rate_limit_exceeded : RetryState → Event

pub record World (F V U : Type 0) : Type 0 where
  pub config : Config F V
  pub clock : ℕ
  pub draws : List ℕ
  pub floats : List F
  pub events : List Event
  pub takes_slot : Bool
  pub user : U

-- `doAction`. An action may change the world at will: what other goroutines do while it runs is
-- part of what it does.
abbrev pub DoAction : Type 0 → Type 0 → Type 0 → Type 0
DoAction F V U = Context → RetryState → World F V U → Outcome × World F V U

module _ {F V U : Type 0} where
  abbrev pub tell : Event → World F V U → World F V U
  tell e w = record w { events = w.events ++ e ∷ [] }

  -- A random number; a source that has run out gives 0.
  abbrev pub draw : World F V U → ℕ × World F V U
  draw w = elim w.draws [ [] ↦ (0, w) | n ∷ ns ↦ (n, record w { draws = ns }) ]

module _ {F V U : Type 0} ⦃f : Float F⦄ where
  -- A draw of RNG.Float64.
  abbrev pub draw_float : World F V U → F × World F V U
  draw_float w = elim w.floats [ [] ↦ (float_ℕ 0, w) | x ∷ xs ↦ (x, record w { floats = xs }) ]
