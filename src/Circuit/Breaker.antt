-- ===== src/Circuit/Breaker.antt =====
-- The state machine of circuit/breaker.go. A method that holds the lock is a function of the
-- instant at which it runs; `Execute` is two of them, `begin` and `finish`, round the action.
use resile.Channel.{send_event}
use resile.Circuit.State.{
  State, closed, open_, half_open, HealthState, healthy, degraded, unhealthy, StateEvent, Breaker,
}
use resile.Circuit.Window.{u64, record_outcome, clear_window, get_stats}
use resile.Errors.{circuit_open, Err, sentinel}
use resile.Float.{Float, float_ℕ}
use resile.Prelude.{
  ℕ, ◌+◌, sub_ℕ, ltb_ℤ, Bool, true, false, Option, none, some, List, [], String, ltb, leb,
  if◌then◌else◌,
}

-- What `Execute` does before the action: it refuses, or admits in a state that it remembers.
pub data Admission : Type 0 where
  refused : Err → Admission
  admitted : State → Admission

abbrev is_open : State → Bool
is_open open_ = true
is_open _ = false

module _ {F : Type 0} where
  unfoldable pub emit_state_event : HealthState → String → ℕ → Breaker F → Breaker F
  emit_state_event s msg now b = record b {
    health_ch =
        send_event
          (record { component = "circuit-breaker"; state = s; timestamp = now; message = msg })
          b.health_ch;
  }

  unfoldable pub health : Breaker F → List StateEvent × Breaker F
  health b = elim b.health_ch [ none ↦ ([], record b { health_ch = some [] }) | some q ↦ (q, b) ]

  unfoldable pub transition_to_open : ℕ → Breaker F → Breaker F
  unfolding emit_state_event
  transition_to_open now b =
      emit_state_event unhealthy "circuit opened" now
        (clear_window (record b { state = open_; opened_at = now }))

  unfoldable pub transition_to_half_open : ℕ → Breaker F → Breaker F
  unfolding emit_state_event
  transition_to_half_open now b = emit_state_event degraded "circuit half-open" now (record b {
    state = half_open;
    half_open_calls = 0;
    half_open_failures = 0;
    half_open_completed = 0;
  })

  unfoldable pub transition_to_closed : ℕ → Breaker F → Breaker F
  unfolding emit_state_event
  transition_to_closed now b =
      emit_state_event healthy "circuit closed" now (clear_window (record b { state = closed }))

  unfoldable pub reset : ℕ → Breaker F → Breaker F
  unfolding transition_to_closed
  reset now b = transition_to_closed now b

  -- The test for the move from Open to Half-Open: time.Since(openedAt) > ResetTimeout.
  abbrev pub reset_elapsed : ℕ → Breaker F → Bool
  reset_elapsed now b = ltb_ℤ b.config.reset_timeout (sub_ℕ now b.opened_at)

  abbrev pub wake_from : State → ℕ → Breaker F → Breaker F
  wake_from open_ now b = if reset_elapsed now b then transition_to_half_open now b else b
  wake_from _ now b = b

  unfoldable pub wake : ℕ → Breaker F → Breaker F
  unfolding transition_to_half_open
  wake now b = wake_from b.state now b

  -- `State()`. The read under the first lock and the check under the second are at one instant.
  unfoldable pub state_of : ℕ → Breaker F → State × Breaker F
  unfolding wake
  state_of now b = let b' = wake now b in (b'.state, b')

  abbrev pub admit_in : State → Breaker F → Admission × Breaker F
  admit_in closed b = (admitted closed, b)
  admit_in open_ b = (refused (sentinel circuit_open), b)
  admit_in half_open b =
      if leb b.config.half_open_max_calls b.half_open_calls
      then (refused (sentinel circuit_open), b)
      else (admitted half_open, record b { half_open_calls = u64 (b.half_open_calls + 1) })

  unfoldable pub admit : Breaker F → Admission × Breaker F
  admit b = admit_in b.state b

  -- `Execute` up to the action, for a context whose Err() is `done`.
  unfoldable pub begin : Option Err → ℕ → Breaker F → Admission × Breaker F
  unfolding admit wake
  begin (some e) now b = (refused e, b)
  begin none now b = admit (wake now b)

module _ {F : Type 0} ⦃f : Float F⦄ where
  -- (float64(failures) / float64(total)) * 100.0
  unfoldable pub failure_rate : ℕ → ℕ → F
  failure_rate failures total = f.mul (f.div (float_ℕ failures) (float_ℕ total)) (float_ℕ 100)

  abbrev pub judge : ℕ → ℕ × ℕ × Breaker F → Breaker F
  judge now (total, failures, b) =
      if ltb total b.config.minimum_calls
      then b
      else if f.le b.config.failure_rate_threshold (failure_rate failures total)
      then transition_to_open now b
      else b

  abbrev pub check_in : State → ℕ → Breaker F → Breaker F
  check_in closed now b = judge now (get_stats now b)
  check_in _ now b = b

  unfoldable pub check_failure_rate : ℕ → Breaker F → Breaker F
  check_failure_rate now b = check_in b.state now b

  unfoldable pub on_failure : State → ℕ → Breaker F → Breaker F
  on_failure half_open now b = transition_to_open now (record b {
    half_open_failures = u64 (b.half_open_failures + 1);
    half_open_completed = u64 (b.half_open_completed + 1);
  })
  on_failure closed now b = check_failure_rate now (record_outcome false now b)
  on_failure open_ now b = check_failure_rate now (record_outcome false now b)

  -- The verdict on the probes, once as many as the configuration asks for are completed.
  abbrev pub judge_probes : ℕ → Breaker F → Breaker F
  judge_probes now b =
      if leb b.config.half_open_max_calls b.half_open_completed
      then if f.lt (failure_rate b.half_open_failures b.half_open_completed)
          b.config.failure_rate_threshold
        then transition_to_closed now b
        else transition_to_open now b
      else b

  unfoldable pub on_success : State → ℕ → Breaker F → Breaker F
  on_success half_open now b =
      judge_probes now (record b { half_open_completed = u64 (b.half_open_completed + 1) })
  on_success closed now b = check_failure_rate now (record_outcome true now b)
  on_success open_ now b = check_failure_rate now (record_outcome true now b)

  -- `Execute` after the action, whose error is given, for a call that was admitted in a state.
  unfoldable pub finish : State → Option Err → ℕ → Breaker F → Breaker F
  unfolding on_success on_failure
  finish s none now b = on_success s now b
  finish s (some e) now b = on_failure s now b
