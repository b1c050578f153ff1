-- ===== src/Examples/Connection.antt =====
-- examples/statemachine/main.go: a connection whose transition to `Connected` fails twice.
use resile.Context.{Context, background}
use resile.Errors.{Err, sentinel, user}
use resile.Float.{Float}
use resile.Pipeline.Config.{Config, millisecond}
use resile.Pipeline.World.{World}
use resile.Pipeline.Entry.{Result, gives}
use resile.Pipeline.Options.{with_max_attempts, with_base_delay}
use resile.Retry.Loop.{RetryState, Outcome}
use resile.StateMachine.Handle.{Update, StateMachine, new_state_machine, handle}
use resile.Prelude.{◌*◌, pos, none, some, List, [], ◌∷◌, String, ltb, if◌then◌else◌}

-- The constants of the string types; `no_state` is "".
pub data State : Type 0 where
  no_state disconnected connecting connected : State

pub data Event : Type 0 where
  connect disconnect : Event

-- Metadata is a nil map throughout.
pub record Data : Type 0 where
  pub endpoint : String

-- errors.New("network timeout").
abbrev pub network_timeout : Err
network_timeout = sentinel (user 0)

abbrev pub machine_options :
    {F : Type 0} → List (Config F (Update State Data) → Config F (Update State Data))
machine_options = with_max_attempts 3 ∷ with_base_delay (pos (100 * millisecond)) ∷ []

module _ {F U : Type 0} where
  abbrev pub try_connect :
      Data
      → RetryState
      → World F (Update State Data) (Update State Data × U)
      → Result (Update State Data) × World F (Update State Data) (Update State Data × U)
  try_connect d rs w =
      if ltb rs.attempt 2
      then (gives (no_state, d) (some network_timeout), w)
      else (gives (connected, d) none, w)

  unfoldable pub transition :
      Context
      → State
      → Data
      → Event
      → RetryState
      → World F (Update State Data) (Update State Data × U)
      → Result (Update State Data) × World F (Update State Data) (Update State Data × U)
  transition ctx disconnected d connect rs w = try_connect d rs w
  transition ctx connected d disconnect rs w = (gives (disconnected, d) none, w)
  transition ctx s d event rs w = (gives (s, d) none, w)

  unfoldable pub machine : StateMachine State Data Event F U
  unfolding transition with_max_attempts with_base_delay new_state_machine
  machine =
      new_state_machine disconnected (record { endpoint = "api.example.com" }) transition
        machine_options

abbrev pub zero_update : Update State Data
zero_update = (no_state, record { endpoint = "" })

module _ {F U : Type 0} ⦃f : Float F⦄ where
  -- What main does with its two events: one after the other, whatever becomes of the one before.
  unfoldable pub send_all :
      List Event
      → StateMachine State Data Event F U
      → World F (Update State Data) (Update State Data × U)
      → List Outcome
        × StateMachine State Data Event F U
        × World F (Update State Data) (Update State Data × U)
  unfolding handle
  send_all [] sm w = ([], sm, w)
  send_all (e ∷ es) sm w =
      let (r, sm', w') = handle zero_update background e sm w in
      let (rs, sm2, w2) = send_all es sm' w' in (r ∷ rs, sm2, w2)
