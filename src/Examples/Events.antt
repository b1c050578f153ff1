-- ===== src/Examples/Events.antt =====
-- The connection of examples/statemachine/main.go after a sequence of events.
use resile.Context.{background}
use resile.Float.{Float}
use resile.Pipeline.World.{World}
use resile.Retry.Loop.{Outcome, returned}
use resile.StateMachine.Handle.{Update, StateMachine, handle, new_state_machine}
use resile.Examples.Connection.{
  State, disconnected, Event, connect, disconnect, Data, machine, zero_update, send_all,
}
use resile.Examples.Connected.{target, IsSettled, at, handle-target}
use resile.Prelude.{◌≡◌, refl, ap, sym, subst, none, List, [], ◌∷◌, length, replicate}

-- The state after the events, from s.
abbrev pub final : State → List Event → State
final s [] = s
final s (e ∷ es) = final (target e) es

target-IsSettled : (e : Event) → IsSettled (target e)
target-IsSettled connect = tt
target-IsSettled disconnect = tt

module _ {F U : Type 0} ⦃f : Float F⦄ where
  abbrev Follows :
      State
      → Data
      → List Event
      → StateMachine State Data Event F U
      → World F (Update State Data) (Update State Data × U)
      → Type 0
  Follows s d es sm w =
      let r = send_all es sm w in
      (r.0 ≡ replicate (length es) (returned none)) × (r.1 ≡ at (final s es) d)

  send_all-Follows :
      (es : List Event) (s : State) (d : Data)
      (w : World F (Update State Data) (Update State Data × U))
      → IsSettled s
      → Follows s d es (at s d) w
  unfolding send_all
  send_all-Follows [] s d w i = (refl, refl)
  send_all-Follows (e ∷ es) s d w i =
      let (r, sm, v) = handle zero_update background e (at s d) w in
      let (ok, moved) = handle-target s e d w i in
      let (oks, end) =
        subst (λ m. Follows (target e) d es m v) (sym moved)
          (send_all-Follows es (target e) d v (target-IsSettled e)) in
      (ap2 ok oks, end)
    where
      ap2 : {a b : Outcome} {as_ bs : List Outcome} → a ≡ b → as_ ≡ bs → a ∷ as_ ≡ b ∷ bs
      ap2 p q = cc

  -- Whatever events are sent to the machine of main, in whatever world, each is handled without an
  -- error, although the transition to Connected fails twice, and afterwards the machine is in the
  -- state that the last event asks for, never in `Connecting` or "", with its data unchanged.
  pub send_all-final :
      (es : List Event) (w : World F (Update State Data) (Update State Data × U))
      → let (rs, sm, v) = send_all es machine w in
        (rs ≡ replicate (length es) (returned none))
        × (sm.state ≡ final disconnected es)
        × (sm.data_ ≡ record { endpoint = "api.example.com" })
  unfolding machine new_state_machine
  send_all-final es w =
      let (oks, end) =
        send_all-Follows es disconnected (record { endpoint = "api.example.com" }) w tt in
      (oks, ap (λ m. m.state) end, ap (λ m. m.data_) end)
