-- ===== src/StateMachine/Handle.antt =====
-- StateMachine, NewStateMachine and Handle of statemachine.go. `Handle` holds the lock throughout, so
-- that the state and the data are the same in every attempt.
use resile.Context.{Context}
use resile.Float.{Float}
use resile.Pipeline.Config.{Config}
use resile.Pipeline.World.{World}
use resile.Pipeline.Compose.{execute}
use resile.Pipeline.Entry.{Result, gives, panics, ValueAction, storing, result_of}
use resile.Pipeline.Options.{new}
use resile.Retry.Loop.{RetryState, Outcome, returned, panicked}
use resile.Prelude.{none, some, List}

-- The local type `update` of Handle: the next state and the next data.
abbrev pub Update : Type 0 → Type 0 → Type 0
Update S D = S × D

-- TransitionFunc: it may use the world as an action does.
abbrev pub TransitionFunc : Type 0 → Type 0 → Type 0 → Type 0 → Type 0 → Type 0
TransitionFunc S D E F U =
    Context
    → S
    → D
    → E
    → RetryState
    → World F (Update S D) (Update S D × U)
    → Result (Update S D) × World F (Update S D) (Update S D × U)

pub record StateMachine (S D E F U : Type 0) : Type 0 where
  pub state : S
  pub data_ : D
  pub transition : TransitionFunc S D E F U
  pub options : List (Config F (Update S D) → Config F (Update S D))

module _ {S D E F U : Type 0} where
  unfoldable pub new_state_machine :
      S
      → D
      → TransitionFunc S D E F U
      → List (Config F (Update S D) → Config F (Update S D))
      → StateMachine S D E F U
  new_state_machine s d transition opts = record {
    state = s;
    data_ = d;
    transition = transition;
    options = opts;
  }

module _ {S D F U : Type 0} where
  -- `update{}` instead of what the transition gave, where it gave an error.
  abbrev pub or_zero :
      Update S D
      → Result (Update S D) × World F (Update S D) (Update S D × U)
      → Result (Update S D) × World F (Update S D) (Update S D × U)
  or_zero zero_update (gives v none, w) = (gives v none, w)
  or_zero zero_update (gives v (some e), w) = (gives zero_update (some e), w)
  or_zero zero_update (panics n, w) = (panics n, w)

abbrev pub outcome_of : {S D : Type 0} → Result (Update S D) → Outcome
outcome_of (gives v e) = returned e
outcome_of (panics n) = panicked n

module _ {S D E F U : Type 0} where
  abbrev pub on_event : Update S D → E → StateMachine S D E F U → ValueAction F (Update S D) U
  on_event zero_update event sm ctx st w =
      or_zero zero_update (sm.transition ctx sm.state sm.data_ event st w)

  abbrev pub settle : Result (Update S D) → StateMachine S D E F U → StateMachine S D E F U
  settle (gives v none) sm = record sm { state = v.0; data_ = v.1 }
  settle (gives v (some e)) sm = sm
  settle (panics n) sm = sm

module _ {S D E F U : Type 0} ⦃f : Float F⦄ where
  -- `zero_update` is Go's zero value. DoState looks for a fallback of the type `update`, which no
  -- caller can name, so that it never finds one.
  unfoldable pub handle :
      Update S D
      → Context
      → E
      → StateMachine S D E F U
      → World F (Update S D) (Update S D × U)
      → Outcome × StateMachine S D E F U × World F (Update S D) (Update S D × U)
  unfolding new
  handle zero_update ctx event sm w =
      let start = record w { config = new sm.options; user = (zero_update, w.user.1) } in
      let (r, w') =
        result_of (execute ctx (some (storing (on_event zero_update event sm))) none start) in
      (outcome_of r, settle r sm, w')
