-- ===== src/Examples/Connected.antt =====
-- The connection of examples/statemachine/main.go after an event.
use resile.Context.{Context, background}
use resile.Errors.{is_sentinel, is_fatal, as_retry_after}
use resile.Float.{Float}
use resile.Pipeline.Config.{default_config}
use resile.Pipeline.World.{World}
use resile.Pipeline.Compose.{execute}
use resile.Pipeline.Entry.{Result, gives, storing, assign, result_of}
use resile.Pipeline.Flaky.{Passes, IsFlaky}
use resile.Pipeline.Recovery.{execute-succeeds}
use resile.Pipeline.Options.{new, with_max_attempts, with_base_delay}
use resile.Retry.Loop.{RetryState, Outcome, returned, panicked}
use resile.Retry.Policy.{no_policy, should_retry_err}
use resile.StateMachine.Handle.{Update, StateMachine, or_zero, on_event, outcome_of, settle, handle}
use resile.Pipeline.Success.{Sound, Modest, stored-Sound}
use resile.Examples.Connection.{
  State, no_state, disconnected, connecting, connected, Event, connect, disconnect, Data,
  network_timeout, try_connect, transition, machine_options, zero_update,
}
use resile.Prelude.{
  ℕ, suc, ◌+◌, ◌-◌, ◌<◌, ◌≡◌, refl, ap, subst, true, false, none, some, ltb, if_of, arith,
}

-- The state that an event asks for.
abbrev pub target : Event → State
target connect = connected
target disconnect = disconnected

-- The states between the events.
abbrev pub IsSettled : State → Type 0
IsSettled disconnected = Unit {0}
IsSettled connected = Unit {0}
IsSettled s = ⊥

-- How often the transition fails from the attempt with number n on.
abbrev failures : State → Event → ℕ → ℕ
failures disconnected connect n = 2 - n
failures s event n = 0

abbrev Hits : State → Data → Update State Data → Type 0
Hits t d u = u ≡ (t, d)

module _ {F U : Type 0} ⦃f : Float F⦄ where
  abbrev pub at : State → Data → StateMachine State Data Event F U
  at s d = record { state = s; data_ = d; transition = transition; options = machine_options }

  abbrev Ends :
      ℕ
      → ℕ
      → Result (Update State Data) × World F (Update State Data) (Update State Data × U)
      → Type 0
  Ends n k x =
      Passes (λ e. should_retry_err no_policy e) (λ n u. 2 - n) n k (assign (or_zero zero_update x))

  connect-Passes :
      (d : Data) (st : RetryState) (w : World F (Update State Data) (Update State Data × U))
      → w.config.adaptive_bucket ≡ none
      → Ends st.attempt (2 - st.attempt) (try_connect d st w)
  unfolding should_retry_err is_sentinel is_fatal as_retry_after
  connect-Passes d st w h =
      let n = st.attempt in
      if_of (Ends n (2 - n)) (ltb n 2) _ _
        (λ few.
          subst (λ k. Ends n k (gives (no_state, d) (some network_timeout), w)) (more n few)
            ((refl, refl, λ t. (t, refl)), h, less n))
        (λ enough. subst (λ k. Ends n k (gives (connected, d) none, w)) (done n enough) tt)
    where
      more : (n : ℕ) → ltb n 2 ≡ true → suc (1 - n) ≡ 2 - n
      more n h = ground arith

      less : (n : ℕ) → 2 - (n + 1) ≡ 1 - n
      less n = omega arith

      done : (n : ℕ) → ltb n 2 ≡ false → 0 ≡ 2 - n
      done n h = ground arith

  event-IsFlaky :
      (s : State) (event : Event) (d : Data)
      → IsSettled s
      → IsFlaky
          (λ e. should_retry_err no_policy e)
          (λ n u. failures s event n)
          (storing (on_event zero_update event (at s d)))
  unfolding transition
  event-IsFlaky disconnected connect d i ctx st w h = connect-Passes d st w h
  event-IsFlaky disconnected disconnect d i ctx st w h = tt
  event-IsFlaky connected connect d i ctx st w h = tt
  event-IsFlaky connected disconnect d i ctx st w h = tt
  event-IsFlaky no_state event d i ctx st w h = absurd i
  event-IsFlaky connecting event d i ctx st w h = absurd i

  connect-Sound :
      (d : Data) (st : RetryState) (w : World F (Update State Data) (Update State Data × U))
      → Sound (Hits connected d) (or_zero zero_update (try_connect d st w)).0
  connect-Sound d st w =
      if_of (λ x. Sound (Hits connected d) (or_zero zero_update x).0) (ltb st.attempt 2) _ _
        (λ few. tt) (λ enough. refl)

  event-Sound :
      (s : State) (event : Event) (d : Data) (c : Context) (st : RetryState)
      (w : World F (Update State Data) (Update State Data × U))
      → IsSettled s
      → Sound (Hits (target event) d) (on_event zero_update event (at s d) c st w).0
  unfolding transition
  event-Sound disconnected connect d c st w i = connect-Sound d st w
  event-Sound disconnected disconnect d c st w i = refl
  event-Sound connected connect d c st w i = refl
  event-Sound connected disconnect d c st w i = refl
  event-Sound no_state event d c st w i = absurd i
  event-Sound connecting event d c st w i = absurd i

  event-Modest :
      (s : State) (event : Event) (d : Data)
      → IsSettled s
      → Modest (on_event {F = F} {U = U} zero_update event (at s d))
  unfolding transition
  event-Modest disconnected connect d i c st w =
      if_of
        (λ (x : Result (Update State Data) × World F (Update State Data) (Update State Data × U)).
          ((or_zero zero_update x).1.config.max_attempts ≡ w.config.max_attempts)
          × ((or_zero zero_update x).1.config.fallback ≡ w.config.fallback))
        (ltb st.attempt 2) _ _ (λ few. (refl, refl)) (λ enough. (refl, refl))
  event-Modest disconnected disconnect d i c st w = (refl, refl)
  event-Modest connected connect d i c st w = (refl, refl)
  event-Modest connected disconnect d i c st w = (refl, refl)
  event-Modest no_state event d i c st w = absurd i
  event-Modest connecting event d i c st w = absurd i

  landed :
      (s t : State) (d : Data) (x : Outcome × World F (Update State Data) (Update State Data × U))
      → x.0 ≡ returned none
      → Sound (Hits t d) (result_of x).0
      → (outcome_of (result_of x).0 ≡ returned none) × (settle (result_of x).0 (at s d) ≡ at t d)
  landed s t d (returned none, w) e h = (refl, ap (λ u. at u.0 u.1) h)
  landed s t d (returned (some x), w) e h = absurd (cc)
  landed s t d (panicked n, w) e h = absurd (cc)

  pub handle-target :
      (s : State) (event : Event) (d : Data)
      (w : World F (Update State Data) (Update State Data × U))
      → IsSettled s
      → let r = handle zero_update background event (at s d) w in
        (r.0 ≡ returned none) × (r.1 ≡ at (target event) d)
  unfolding handle new default_config with_max_attempts with_base_delay
  handle-target s event d w i =
      let start = record w { config = new machine_options; user = (zero_update, w.user.1) } in
      let act = on_event zero_update event (at s d) in
      landed s (target event) d (execute background (some (storing act)) none start)
        (execute-succeeds (λ n u. failures s event n) background (storing act) start
          (record {
            composed = refl;
            pipeline = refl;
            rate_limiter = refl;
            adaptive_limiter = refl;
            bulkhead = refl;
            priority_bulkhead = refl;
            circuit_breaker = refl;
            chaos = refl;
            adaptive_bucket = refl;
          })
          (refl, refl) (event-IsFlaky s event d i) (few s event))
        (stored-Sound (Hits (target event) d) background act start (omega arith)
          (event-Modest s event d i) (λ c st v. event-Sound s event d c st v i) tt)
    where
      few : (s : State) (event : Event) → failures s event 0 < 3
      few disconnected connect = omega arith
      few disconnected disconnect = omega arith
      few no_state event = omega arith
      few connecting event = omega arith
      few connected event = omega arith
